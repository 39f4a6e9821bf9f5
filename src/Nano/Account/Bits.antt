-- ===== src/Nano/Account/Bits.antt =====
-- internal/nano/account.go: the bit loops of the base32 codec, against writing the bits of the data in order.
use nora_relay.Base.{
  ℕ, zero, suc, ◌+◌, ◌-◌, ◌*◌, ◌/◌, ◌%◌, ◌^◌, ◌≤◌, ◌<◌, ◌≡◌, refl, sym, ap, ◌∙◌, List, [], ◌∷◌,
  ◌++◌, ltb, length, if◌then◌else◌, All, length-append, arith,
}
use native.Mathlib.Nat.{div-div-eq-div-mul, two-pow-succ, mul_comm, mul_assoc, add-mul}
use mathlib.Core.List.{append_assoc}
use nora_relay.Nano.Account.{byte_at, bit_of, bit_at, gather, set_byte, scatter, zeros}

abbrev pub IsByte : ℕ → Type 0
IsByte b = b < 256

-- The bit `b`, written to its place.
unfoldable pub write : (b pad i : ℕ) → List ℕ → List ℕ
write b pad i out =
    if ltb i pad then out else set_byte out ((i - pad) / 8) (b * 2 ^ (7 - (i - pad) % 8))

-- One bit of the data, written to its place.
unfoldable pub put_bit : List ℕ → (pad i : ℕ) → List ℕ → List ℕ
put_bit octets pad i out = write (bit_at octets pad i) pad i out

-- `n` bits of the data from index `i` on.
unfoldable pub put_bits : List ℕ → (pad i n : ℕ) → List ℕ → List ℕ
put_bits octets pad i zero out = out
put_bits octets pad i (suc n) out = put_bits octets pad (i + 1) n (put_bit octets pad i out)

bit_at-lt : (octets : List ℕ) (pad i : ℕ) → bit_at octets pad i < 2
bit_at-lt octets pad i = ground arith

abbrev five : (a b c d e : ℕ) → ℕ
five a b c d e = 2 * (2 * (2 * (2 * (2 * 0 + a) + b) + c) + d) + e

five_0 : (a b c d e : ℕ) → a < 2 → b < 2 → c < 2 → d < 2 → e < 2 → five a b c d e / 2 ^ 4 % 2 ≡ a
five_0 a b c d e ha hb hc hd he = omega arith

five_1 : (a b c d e : ℕ) → a < 2 → b < 2 → c < 2 → d < 2 → e < 2 → five a b c d e / 2 ^ 3 % 2 ≡ b
five_1 a b c d e ha hb hc hd he = omega arith

five_2 : (a b c d e : ℕ) → a < 2 → b < 2 → c < 2 → d < 2 → e < 2 → five a b c d e / 2 ^ 2 % 2 ≡ c
five_2 a b c d e ha hb hc hd he = omega arith

five_3 : (a b c d e : ℕ) → a < 2 → b < 2 → c < 2 → d < 2 → e < 2 → five a b c d e / 2 ^ 1 % 2 ≡ d
five_3 a b c d e ha hb hc hd he = omega arith

five_4 : (a b c d e : ℕ) → a < 2 → b < 2 → c < 2 → d < 2 → e < 2 → five a b c d e / 2 ^ 0 % 2 ≡ e
five_4 a b c d e ha hb hc hd he = omega arith

five-lt : (a b c d e : ℕ) → a < 2 → b < 2 → c < 2 → d < 2 → e < 2 → five a b c d e < 32
five-lt a b c d e ha hb hc hd he = omega arith

write_five : (a b c d e pad i : ℕ) → List ℕ → List ℕ
unfolding write
write_five a b c d e pad i out = write e pad (i + 1 + 1 + 1 + 1) (
    write d pad (i + 1 + 1 + 1) (write c pad (i + 1 + 1) (write b pad (i + 1) (write a pad i out))))

scatter-five :
    (v a b c d e pad i : ℕ) (out : List ℕ)
    → v / 2 ^ 4 % 2 ≡ a
    → v / 2 ^ 3 % 2 ≡ b
    → v / 2 ^ 2 % 2 ≡ c
    → v / 2 ^ 1 % 2 ≡ d
    → v / 2 ^ 0 % 2 ≡ e
    → scatter v 5 pad i out ≡ write_five a b c d e pad i out
unfolding scatter write write_five
scatter-five v a b c d e pad i out ha hb hc hd he =
    λ t. write_five (ha t) (hb t) (hc t) (hd t) (he t) pad i out

-- What the inner loop of the encoder gathers, the inner loop of the decoder writes back.
pub scatter-gather :
    (octets : List ℕ) (pad i : ℕ) (out : List ℕ)
    → scatter (gather octets pad i 5 0) 5 pad i out ≡ put_bits octets pad i 5 out
unfolding gather put_bits put_bit write_five
scatter-gather octets pad i out =
    let g = bit_at-lt octets pad in
    let h0 = g i in
    let h1 = g (i + 1) in
    let h2 = g (i + 1 + 1) in
    let h3 = g (i + 1 + 1 + 1) in
    let h4 = g (i + 1 + 1 + 1 + 1) in
    scatter-five _ _ _ _ _ _ pad i out (five_0 _ _ _ _ _ h0 h1 h2 h3 h4)
      (five_1 _ _ _ _ _ h0 h1 h2 h3 h4) (five_2 _ _ _ _ _ h0 h1 h2 h3 h4)
      (five_3 _ _ _ _ _ h0 h1 h2 h3 h4) (five_4 _ _ _ _ _ h0 h1 h2 h3 h4)

pub gather-lt : (octets : List ℕ) (pad i : ℕ) → gather octets pad i 5 0 < 32
unfolding gather
gather-lt octets pad i =
    let g = bit_at-lt octets pad in
    five-lt _ _ _ _ _ (g i) (g (i + 1)) (g (i + 1 + 1)) (g (i + 1 + 1 + 1)) (g (i + 1 + 1 + 1 + 1))

pub put_bits-add :
    (octets : List ℕ) (pad i m n : ℕ) (out : List ℕ)
    → put_bits octets pad i (m + n) out
      ≡ put_bits octets pad (i + m) n (put_bits octets pad i m out)
unfolding put_bits
put_bits-add octets pad i zero n out =
    let p : i ≡ i + 0 = omega arith in
    let q : 0 + n ≡ n = omega arith in λ t. put_bits octets pad (p t) (q t) out
put_bits-add octets pad i (suc m) n out =
    let next = put_bit octets pad i out in
    let p : i + 1 + m ≡ i + suc m = omega arith in
    let q : suc m + n ≡ suc (m + n) = omega arith in
    (λ t. put_bits octets pad i (q t) out)
    ∙ put_bits-add octets pad (i + 1) m n next
    ∙ (λ t. put_bits octets pad (p t) n (put_bits octets pad (i + 1) m next))

-- The pad bits write nothing.
pub put_bits_pad :
    (octets : List ℕ) (pad i n : ℕ) (out : List ℕ) → i + n ≤ pad → put_bits octets pad i n out ≡ out
unfolding put_bits put_bit write
put_bits_pad octets pad i zero out h = refl
put_bits_pad octets pad i (suc n) out h = ground (arith, put_bits_pad octets pad (i + 1) n out)

byte_at-append : (xs ys : List ℕ) (b : ℕ) → byte_at (xs ++ b ∷ ys) (length xs) ≡ b
unfolding byte_at
byte_at-append [] ys b = refl
byte_at-append (x ∷ xs) ys b = byte_at-append xs ys b

set_byte-append :
    (xs zs : List ℕ) (y m : ℕ) → set_byte (xs ++ y ∷ zs) (length xs) m ≡ xs ++ (y + m) ∷ zs
unfolding set_byte
set_byte-append [] zs y m = refl
set_byte-append (x ∷ xs) zs y m = ap (λ l. x ∷ l) (set_byte-append xs zs y m)

place_byte : (pad i j k : ℕ) → i ≡ pad + 8 * j + k → k < 8 → (i - pad) / 8 ≡ j
place_byte pad i j k hi h = omega arith

place_bit : (pad i j k : ℕ) → i ≡ pad + 8 * j + k → k < 8 → (i - pad) % 8 ≡ k
place_bit pad i j k hi h = omega arith

write_past :
    (b pad i j k : ℕ) (out : List ℕ)
    → i ≡ pad + 8 * j + k
    → k < 8
    → write b pad i out ≡ set_byte out j (b * 2 ^ (7 - k))
unfolding write
write_past b pad i j k out hi h =
    ground (arith, place_byte pad i j k hi h, place_bit pad i j k hi h)

bit_at_past :
    (octets : List ℕ) (pad i j k : ℕ)
    → i ≡ pad + 8 * j + k
    → k < 8
    → bit_at octets pad i ≡ bit_of (byte_at octets j) k
bit_at_past octets pad i j k hi h =
    ground (arith, place_byte pad i j k hi h, place_bit pad i j k hi h)

-- The bit `k` of a byte, on an output that has `y` at the place of the byte.
put_bit_in :
    (xs ys zs : List ℕ) (b pad y i k : ℕ)
    → i ≡ pad + 8 * length xs + k
    → k < 8
    → put_bit (xs ++ b ∷ ys) pad i (xs ++ y ∷ zs) ≡ xs ++ (y + bit_of b k * 2 ^ (7 - k)) ∷ zs
unfolding put_bit
put_bit_in xs ys zs b pad y i k hi h =
    write_past _ pad i (length xs) k _ hi h
    ∙ ap (λ v. set_byte (xs ++ y ∷ zs) (length xs) (v * 2 ^ (7 - k)))
        (bit_at_past _ pad i (length xs) k hi h ∙ ap (λ v. bit_of v k) (byte_at-append xs ys b))
    ∙ set_byte-append xs zs y _

-- The bits of a number from `n` on, by the bits from `suc n` on and the bit `n`.
top_bit : (b n : ℕ) → b / 2 ^ suc n * 2 ^ suc n + b / 2 ^ n % 2 * 2 ^ n ≡ b / 2 ^ n * 2 ^ n
top_bit b n =
    let p = 2 ^ n in
    let x = b / p in
    let power : 2 ^ suc n ≡ p * 2 = omega (arith, two-pow-succ n) in
    let halves : 2 * (x / 2) + x % 2 ≡ x = omega arith in
    let move : x / 2 * (p * 2) ≡ 2 * (x / 2) * p =
      ap (λ q. x / 2 * q) (mul_comm p 2)
      ∙ sym (mul_assoc (x / 2) 2 p)
      ∙ ap (λ q. q * p) (mul_comm (x / 2) 2) in
    ap (λ q. b / q * q + x % 2 * p) power
    ∙ ap (λ q. q * (p * 2) + x % 2 * p) (sym (div-div-eq-div-mul b p 2))
    ∙ ap (λ q. q + x % 2 * p) move
    ∙ sym (add-mul (2 * (x / 2)) (x % 2) p)
    ∙ ap (λ q. q * p) halves

-- The bits of a byte from `k` on, where those before `k` are written.
put_byte_from :
    (xs ys zs : List ℕ) (b pad i k n : ℕ)
    → n + k ≡ 8
    → i ≡ pad + 8 * length xs + k
    → put_bits (xs ++ b ∷ ys) pad i n (xs ++ b / 2 ^ n * 2 ^ n ∷ zs) ≡ xs ++ b ∷ zs
unfolding put_bits
put_byte_from xs ys zs b pad i k zero hk hi = ap (λ v. xs ++ v ∷ zs) (omega arith)
put_byte_from xs ys zs b pad i k (suc n) hk hi =
    let octets = xs ++ b ∷ ys in
    let same : 7 - k ≡ n = omega arith in
    let sum : b / 2 ^ suc n * 2 ^ suc n + bit_of b k * 2 ^ (7 - k) ≡ b / 2 ^ n * 2 ^ n =
      ap (λ m. b / 2 ^ suc n * 2 ^ suc n + b / 2 ^ m % 2 * 2 ^ m) same ∙ top_bit b n in
    ap (λ l. put_bits octets pad (i + 1) n l)
      (put_bit_in xs ys zs b pad _ i k hi (omega arith) ∙ ap (λ v. xs ++ v ∷ zs) sum)
    ∙ put_byte_from xs ys zs b pad (i + 1) (suc k) n (omega arith) (omega arith)

-- The eight bits of a byte.
pub put_byte :
    (xs ys zs : List ℕ) (b pad i : ℕ)
    → IsByte b
    → i ≡ pad + 8 * length xs
    → put_bits (xs ++ b ∷ ys) pad i 8 (xs ++ 0 ∷ zs) ≡ xs ++ b ∷ zs
put_byte xs ys zs b pad i h hi =
    let none_yet : 0 ≡ b / 2 ^ 8 * 2 ^ 8 = omega arith in
    ap (λ v. put_bits (xs ++ b ∷ ys) pad i 8 (xs ++ v ∷ zs)) none_yet
    ∙ put_byte_from xs ys zs b pad i 0 8 (omega arith) (omega arith)

-- All bits of the data from the end of `xs` on, written over zeros, are the data.
pub put_bytes :
    (xs ys : List ℕ) (pad i : ℕ)
    → All IsByte ys
    → i ≡ pad + 8 * length xs
    → put_bits (xs ++ ys) pad i (8 * length ys) (xs ++ zeros (length ys)) ≡ xs ++ ys
unfolding put_bits
put_bytes xs [] pad i h hi = refl
put_bytes xs (b ∷ ys) pad i (hb, h) hi =
    let octets = xs ++ b ∷ ys in
    let rest = zeros (length ys) in
    let snoc : (l : List ℕ) → (xs ++ b ∷ []) ++ l ≡ xs ++ b ∷ l = λ l. append_assoc xs (b ∷ []) l in
    let eight : 8 * suc (length ys) ≡ 8 + 8 * length ys = omega arith in
    let next : i + 8 ≡ pad + 8 * length (xs ++ b ∷ []) = omega (arith, length-append xs (b ∷ [])) in
    ap (λ n. put_bits octets pad i n (xs ++ 0 ∷ rest)) eight
    ∙ put_bits-add octets pad i 8 (8 * length ys) (xs ++ 0 ∷ rest)
    ∙ ap (λ l. put_bits octets pad (i + 8) (8 * length ys) l)
        (put_byte xs ys rest b pad i hb hi ∙ sym (snoc rest))
    ∙ ap (λ l. put_bits l pad (i + 8) (8 * length ys) ((xs ++ b ∷ []) ++ rest)) (sym (snoc ys))
    ∙ put_bytes (xs ++ b ∷ []) ys pad (i + 8) h next
    ∙ snoc ys
