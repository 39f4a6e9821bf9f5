-- ===== src/Text/Hex.antt =====
-- encoding/hex, as the source uses it: decoding after encoding.
use Prim.Native.Char.{Char, code}
use nora_relay.Base.{
  ℕ, ◌+◌, ◌*◌, ◌/◌, ◌%◌, ◌<◌, ◌≡◌, refl, ap, ◌∙◌, String, true, List, [], ◌∷◌, Option, none, some,
  All, arith,
}
use nora_relay.Base.Below.{all_below, reads_back, reads_back-Sound}
use nora_relay.Text.{bytes, hex_digit, hex_encode, from_hex_char, hex_decode}

pub bytes_ascii : (c : Char) (s : String) → code c < 128 → bytes (String.◌∷◌ c s) ≡ code c ∷ bytes s
unfolding bytes
bytes_ascii c s h = ground arith

hex-round_trip : all_below (reads_back (λ v. code (hex_digit v)) from_hex_char) 16 ≡ true
unfolding all_below reads_back from_hex_char
hex-round_trip = refl

digit-lt : (v : ℕ) → v < 16 → code (hex_digit v) < 128
digit-lt v h = (reads_back-Sound _ _ 16 hex-round_trip v h).0

from_hex_char-digit : (v : ℕ) → v < 16 → from_hex_char (code (hex_digit v)) ≡ some v
from_hex_char-digit v h = (reads_back-Sound _ _ 16 hex-round_trip v h).1

bytes-digits :
    (high low : ℕ) (s : String)
    → high < 16
    → low < 16
    → bytes (String.◌∷◌ (hex_digit high) (String.◌∷◌ (hex_digit low) s))
      ≡ code (hex_digit high) ∷ code (hex_digit low) ∷ bytes s
bytes-digits high low s h g =
    bytes_ascii (hex_digit high) (String.◌∷◌ (hex_digit low) s) (digit-lt high h)
    ∙ ap (λ l. code (hex_digit high) ∷ l) (bytes_ascii (hex_digit low) s (digit-lt low g))

joined : Option ℕ → Option ℕ → Option (List ℕ) → Option (List ℕ)
joined none low rest = none
joined (some high) none rest = none
joined (some high) (some low) none = none
joined (some high) (some low) (some bs) = some ((high * 16 + low) ∷ bs)

hex_decode-step :
    (c d : ℕ) (s : List ℕ)
    → hex_decode (c ∷ d ∷ s) ≡ joined (from_hex_char c) (from_hex_char d) (hex_decode s)
unfolding hex_decode joined
hex_decode-step c d s = ground arith

-- hex.DecodeString gives back the bytes that hex.EncodeToString wrote.
pub hex_decode-hex_encode :
    (bs : List ℕ) → All (λ b. b < 256) bs → hex_decode (bytes (hex_encode bs)) ≡ some bs
unfolding hex_decode hex_encode bytes joined
hex_decode-hex_encode [] h = refl
hex_decode-hex_encode (b ∷ bs) (hb, h) =
    let high-lt : b / 16 < 16 = omega arith in
    let low-lt : b % 16 < 16 = omega arith in
    let whole : b / 16 * 16 + b % 16 ≡ b = omega arith in
    ap hex_decode (bytes-digits (b / 16) (b % 16) (hex_encode bs) high-lt low-lt)
    ∙ hex_decode-step (code (hex_digit (b / 16))) (code (hex_digit (b % 16)))
        (bytes (hex_encode bs))
    ∙ (λ t.
        joined (from_hex_char-digit (b / 16) high-lt t) (from_hex_char-digit (b % 16) low-lt t)
          (hex_decode-hex_encode bs h t))
    ∙ ap (λ v. some (v ∷ bs)) whole
