-- ===== src/Nano/Account/Codec.antt =====
-- internal/nano/account.go: decodeBase32 after encodeBase32.
use Prim.Native.Char.{Char, code}
use nora_relay.Base.{
  ℕ, zero, suc, ◌+◌, ◌-◌, ◌*◌, ◌/◌, ◌%◌, ◌<◌, ◌≡◌, refl, sym, ap, ◌∙◌, true, List, [], none, some,
  nat_eq, length, if◌then◌else◌, All, arith,
}
use nora_relay.Base.Below.{all_below, reads_back, reads_back-Sound}
use nora_relay.Text.{bytes}
use nora_relay.Text.Hex.{bytes_ascii}
use nora_relay.Nano.Account.{
  alphabet, char_at, index_from, gather, scatter, encode_from, encode_base32, decode_from,
  decode_base32, zeros,
}
use nora_relay.Nano.Account.Bits.{
  IsByte, put_bits, put_bits-add, put_bits_pad, put_bytes, scatter-gather, gather-lt,
}

char_of : ℕ → Char
unfolding char_at
char_of v = char_at alphabet v

alphabet-round_trip :
    all_below (reads_back (λ v. code (char_of v)) (index_from alphabet 0)) 32 ≡ true
unfolding all_below reads_back char_of index_from
alphabet-round_trip = refl

char-lt : (v : ℕ) → v < 32 → code (char_of v) < 128
char-lt v h = (reads_back-Sound _ _ 32 alphabet-round_trip v h).0

index_from-char : (v : ℕ) → v < 32 → index_from alphabet 0 (code (char_of v)) ≡ some v
index_from-char v h = (reads_back-Sound _ _ 32 alphabet-round_trip v h).1

-- The decoder writes the bits of the data that the encoder read.
decode_from-encode_from :
    (octets : List ℕ) (pad i n : ℕ) (out : List ℕ)
    → decode_from (bytes (encode_from octets pad i n)) pad i out
      ≡ some (put_bits octets pad i (5 * n) out)
unfolding encode_from decode_from put_bits char_of bytes
decode_from-encode_from octets pad i zero out = refl
decode_from-encode_from octets pad i (suc n) out =
    let v = gather octets pad i 5 0 in
    let v-lt = gather-lt octets pad i in
    let s = encode_from octets pad (i + 5) n in
    let five : 5 + 5 * n ≡ 5 * suc n = omega arith in
    ap (λ l. decode_from l pad i out) (bytes_ascii (char_of v) s (char-lt v v-lt))
    ∙ ap
        (λ found. elim found [
          | none ↦ none
          | some w ↦ decode_from (bytes s) pad (i + 5) (scatter w 5 pad i out)
        ])
        (index_from-char v v-lt)
    ∙ ap (λ l. decode_from (bytes s) pad (i + 5) l) (scatter-gather octets pad i out)
    ∙ decode_from-encode_from octets pad (i + 5) n (put_bits octets pad i 5 out)
    ∙ ap some
        (sym (put_bits-add octets pad i 5 (5 * n) out) ∙ ap (λ m. put_bits octets pad i m out) five)

-- The encoder writes one byte for each character.
pub length-encode_from :
    (octets : List ℕ) (pad i n : ℕ) → length (bytes (encode_from octets pad i n)) ≡ n
unfolding encode_from char_of bytes
length-encode_from octets pad i zero = refl
length-encode_from octets pad i (suc n) =
    let v = gather octets pad i 5 0 in
    ap (λ l. length l)
      (bytes_ascii (char_of v) (encode_from octets pad (i + 5) n)
        (char-lt v (gather-lt octets pad i)))
    ∙ ap suc (length-encode_from octets pad (i + 5) n)

-- decodeBase32 gives back the bytes that encodeBase32 took, with the same pad, when the pad and the bits of the data
-- fill the last character.
pub decode_base32-encode_base32 :
    (octets : List ℕ) (pad : ℕ)
    → All IsByte octets
    → (pad + 8 * length octets) % 5 ≡ 0
    → decode_base32 (bytes (encode_base32 octets pad)) pad ≡ some octets
unfolding decode_base32 encode_base32
decode_base32-encode_base32 octets pad h full =
    let size = length octets in
    let n = (pad + size * 8 + 4) / 5 in
    let s = bytes (encode_from octets pad 0 n) in
    let len : length s ≡ n = length-encode_from octets pad 0 n in
    let chars : 5 * n ≡ pad + 8 * size = omega arith in
    let bits : length s * 5 - pad ≡ 8 * size = omega arith in
    let whole : 8 * size % 8 ≡ 0 = omega arith in
    let room : 8 * size / 8 ≡ size = omega arith in
    let out = zeros size in
    ap (λ b. if nat_eq (b % 8) 0 then decode_from s pad 0 (zeros (b / 8)) else none) bits
    ∙ ap (λ r. if nat_eq r 0 then decode_from s pad 0 (zeros (8 * size / 8)) else none) whole
    ∙ ap (λ r. decode_from s pad 0 (zeros r)) room
    ∙ decode_from-encode_from octets pad 0 n out
    ∙ ap (λ m. some (put_bits octets pad 0 m out)) chars
    ∙ ap some (
        put_bits-add octets pad 0 pad (8 * size) out
        ∙ ap (λ l. put_bits octets pad (0 + pad) (8 * size) l)
            (put_bits_pad octets pad 0 pad out (omega arith))
        ∙ put_bytes [] octets pad (0 + pad) h (omega arith))
