-- ===== src/Nano/Account/RoundTrip.antt =====
-- internal/nano/account.go: ParseAddress after Address.
use Prim.Native.Char.{code}
use Prim.Native.String
use Prim.Native.String.append
use mathlib.Core.List.{append_assoc, reverse-reverse}
use nora_relay.Base.{
  ℕ, ◌+◌, ◌≡◌, refl, sym, ap, ◌∙◌, true, not, List, [], ◌∷◌, ◌++◌, Option, none, some, nat_eq,
  length, length-append, reverse, reverse_aux, if◌then◌else◌, All, String, arith,
}
use nora_relay.Text.{bytes, utf8}
use nora_relay.Nano.Account.{
  encode_base32, decode_base32, bytes_equal, cut_prefix, take, drop, address, check_sum, parse_rest,
  parse_address,
}
use nora_relay.Nano.Account.Bits.{IsByte}
use nora_relay.Nano.Account.Codec.{length-encode_from, decode_base32-encode_base32}

bytes-append : (s t : String) → bytes (String.◌++◌ s t) ≡ bytes s ++ bytes t
unfolding bytes
bytes-append String.[] t = λ i. bytes (append.nil t i)
bytes-append (String.◌∷◌ c s) t =
    (λ i. bytes (append.cons c s t i))
    ∙ ap (λ l. utf8 (code c) ++ l) (bytes-append s t)
    ∙ sym (append_assoc (utf8 (code c)) (bytes s) (bytes t))

pub take-append : (xs ys : List ℕ) → take (length xs) (xs ++ ys) ≡ xs
unfolding take
take-append [] ys = refl
take-append (x ∷ xs) ys = ap (λ l. x ∷ l) (take-append xs ys)

pub drop-append : (xs ys : List ℕ) → drop (length xs) (xs ++ ys) ≡ ys
unfolding drop
drop-append [] ys = refl
drop-append (x ∷ xs) ys = drop-append xs ys

bytes_equal_refl : (xs : List ℕ) → bytes_equal xs xs ≡ true
unfolding bytes_equal
bytes_equal_refl [] = refl
bytes_equal_refl (x ∷ xs) = ground (arith, bytes_equal_refl xs)

pub All-append : (xs ys : List ℕ) → All IsByte xs → All IsByte ys → All IsByte (xs ++ ys)
All-append [] ys h g = g
All-append (x ∷ xs) ys (hx, h) g = (hx, All-append xs ys h g)

length-reverse_aux : (l r : List ℕ) → length (reverse_aux l r) ≡ length l + length r
length-reverse_aux [] r = omega arith
length-reverse_aux (x ∷ l) r = length-reverse_aux l (x ∷ r) ∙ omega arith

All-reverse_aux : (l r : List ℕ) → All IsByte l → All IsByte r → All IsByte (reverse_aux l r)
All-reverse_aux [] r h g = g
All-reverse_aux (x ∷ l) r (hx, h) g = All-reverse_aux l (x ∷ r) h (hx, g)

module _ (blake2b : ℕ → List ℕ → List ℕ) where
  -- The 60 characters after the prefix.
  parse_rest-append :
      (pk head tail : List ℕ)
      → length pk ≡ 32
      → length head ≡ 52
      → length tail ≡ 8
      → decode_base32 head 4 ≡ some pk
      → decode_base32 tail 0 ≡ some (reverse (blake2b 5 pk))
      → parse_rest blake2b (head ++ tail) ≡ some pk
  unfolding parse_rest check_sum
  parse_rest-append pk head tail len len_head len_tail e_head e_tail =
      let addr = head ++ tail in
      let size : length addr ≡ 60 = length-append head tail ∙ omega (arith, len_head, len_tail) in
      let front : take 52 addr ≡ head =
        ap (λ n. take n addr) (sym len_head) ∙ take-append head tail in
      let back : drop 52 addr ≡ tail =
        ap (λ n. drop n addr) (sym len_head) ∙ drop-append head tail in
      let sum = blake2b 5 pk in
      let same : bytes_equal (reverse (reverse sum)) sum ≡ true =
        ap (λ l. bytes_equal l sum) (reverse-reverse sum) ∙ bytes_equal_refl sum in
      let key = ap (λ l. decode_base32 l 4) front ∙ e_head in
      let digest = ap (λ l. decode_base32 l 0) back ∙ e_tail in
      let tests : ℕ → Option (List ℕ) → Option (List ℕ) → Option (List ℕ) = λ n found got.
        if not (nat_eq n 60) then none else elim found [
          | none ↦ none
          | some pub_key ↦
              if not (nat_eq (length pub_key) 32) then none else check_sum blake2b pub_key got
        ] in
      (λ t. tests (size t) (key t) (digest t))
      ∙ ap (λ n. if not (nat_eq n 32) then none else check_sum blake2b pk (some (reverse sum))) len
      ∙ ap (λ b. if b then some pk else none) same

  -- ParseAddress gives back the public key of 32 bytes whose address Address wrote, when the digest of the key at
  -- size 5 is five bytes.
  pub parse_address-address :
      (pk : List ℕ)
      → length pk ≡ 32
      → All IsByte pk
      → length (blake2b 5 pk) ≡ 5
      → All IsByte (blake2b 5 pk)
      → parse_address blake2b (address blake2b pk) ≡ some pk
  unfolding parse_address address cut_prefix bytes encode_base32
  parse_address-address pk len h len_sum h_sum =
      let sum = reverse (blake2b 5 pk) in
      let front = encode_base32 pk 4 in
      let back = encode_base32 sum 0 in
      let len_back : length sum ≡ 5 =
        length-reverse_aux (blake2b 5 pk) [] ∙ omega (arith, len_sum) in
      let text : bytes (address blake2b pk) ≡ bytes "nano_" ++ (bytes front ++ bytes back) =
        bytes-append "nano_" (String.◌++◌ front back)
        ∙ ap (λ l. bytes "nano_" ++ l) (bytes-append front back) in
      ap
        (λ l. elim (cut_prefix (bytes "nano_") l) [
          | some rest ↦ parse_rest blake2b rest
          | none ↦ elim (cut_prefix (bytes "xrb_") l) [
            | some rest ↦ parse_rest blake2b rest
            | none ↦ none
          ]
        ])
        text
      ∙ parse_rest-append pk (bytes front) (bytes back) len
          (length-encode_from pk 4 0 _ ∙ omega (arith, len))
          (length-encode_from sum 0 0 _ ∙ omega (arith, len_back))
          (decode_base32-encode_base32 pk 4 h (omega (arith, len)))
          (decode_base32-encode_base32 sum 0 (All-reverse_aux (blake2b 5 pk) [] h_sum tt)
            (omega (arith, len_back)))
