-- ===== src/Nano/Keys/Challenges.antt =====
-- internal/nano: seeds read back, and the challenges that a private key signs.
use nora_relay.Base.{
  ℕ, zero, suc, ◌≤◌, ◌≡◌, refl, ap, ◌∙◌, true, not, List, [], ◌∷◌, ◌++◌, Option, none, some, nat_eq,
  length, All, if◌then◌else◌, arith,
}
use nora_relay.Text.Hex.{hex_decode-hex_encode}
use nora_relay.Nano.Account.{zeros, take, drop}
use nora_relay.Nano.Account.Bits.{IsByte}
use nora_relay.Nano.Signing.{
  Curve, Signature, Sound, sign, verify_challenge, auth_challenge_digest, verify-sign,
}
use nora_relay.Nano.Keys.{
  copy_bytes, parse_seed, hex, written, blake2b_sum, expanded_scalar, public, sign_with,
  answer_challenge,
}

copy_bytes-zeros : (n : ℕ) (b : List ℕ) → length b ≡ n → copy_bytes (zeros n) b ≡ b
unfolding copy_bytes
copy_bytes-zeros zero [] h = refl
copy_bytes-zeros zero (b ∷ bs) h = ground arith
copy_bytes-zeros (suc n) [] h = ground arith
copy_bytes-zeros (suc n) (b ∷ bs) h = ap (λ l. b ∷ l) (copy_bytes-zeros n bs (omega (arith, h)))

length-take : (n : ℕ) (l : List ℕ) → n ≤ length l → length (take n l) ≡ n
unfolding take
length-take zero l h = refl
length-take (suc n) [] h = ground arith
length-take (suc n) (x ∷ l) h = ap suc (length-take n l (omega (arith, h)))

-- ParseSeed gives back a seed of 32 bytes that Hex wrote.
pub parse_seed-hex :
    (seed : List ℕ) → length seed ≡ 32 → All IsByte seed → parse_seed (hex seed) ≡ some seed
unfolding parse_seed hex
parse_seed-hex seed len h =
    ap
      (λ found. elim found [
        | none ↦ none
        | some b ↦ if not (nat_eq (length b) 32) then none else some (copy_bytes (zeros 32) b)
      ])
      (hex_decode-hex_encode seed h)
    ∙ ap (λ n. if not (nat_eq n 32) then none else some (copy_bytes (zeros 32) seed)) len
    ∙ ap some (copy_bytes-zeros 32 seed len)

-- An array of `n` bytes.
abbrev pub IsOctets : ℕ → List ℕ → Type 0
IsOctets n l = (length l ≡ n) × All IsByte l

-- What the source relies on of BLAKE2b and of the curve: the lengths of what they give, and that they take every
-- input of the length they ask for.
pub record Sized (curve : Curve) (blake2b : ℕ → List ℕ → List ℕ) : Type 0 where
  pub digest_octets :
      (size : ℕ) (l : List ℕ) → 1 ≤ size → size ≤ 64 → IsOctets size (blake2b size l)
  pub clamps :
      (b : List ℕ) → length b ≡ 32 → (s : curve.Scalar) × (curve.set_bytes_with_clamping b ≡ some s)
  pub reduces :
      (b : List ℕ) → length b ≡ 64 → (s : curve.Scalar) × (curve.set_uniform_bytes b ≡ some s)
  pub point_octets : (p : curve.Point) → IsOctets 32 (curve.point_bytes p)
  pub scalar_octets : (s : curve.Scalar) → IsOctets 32 (curve.scalar_bytes s)

module _ (curve : Curve) (blake2b : ℕ → List ℕ → List ℕ) (sized : Sized curve blake2b) where
  open curve use {scalar_base_mult, point_bytes, scalar_bytes, multiply_add}

  expanded_scalar-total :
      (pk : List ℕ)
      → (a : curve.Scalar) × (prefix : List ℕ) × (expanded_scalar blake2b curve pk
          ≡ some (a, prefix))
  unfolding expanded_scalar blake2b_sum
  expanded_scalar-total pk =
      let h = blake2b 64 (written (pk ∷ [])) in
      let size = (sized.digest_octets 64 (written (pk ∷ [])) (omega arith) (omega arith)).0 in
      let clamped = sized.clamps (take 32 h) (length-take 32 h (omega (arith, size))) in
      (clamped.0, drop 32 h, ground (arith, clamped.1))

  sign-total :
      (a : curve.Scalar) (prefix msg : List ℕ)
      → (sig : Signature) × (sign curve blake2b a prefix msg ≡ some sig)
        × IsOctets 32 sig.first
        × IsOctets 32 sig.second
  unfolding sign
  sign-total a prefix msg =
      let size : (l : List ℕ) → length (blake2b 64 l) ≡ 64 =
        λ l. (sized.digest_octets 64 l (omega arith) (omega arith)).0 in
      let pub_key = point_bytes (scalar_base_mult a) in
      let r = sized.reduces (blake2b 64 (prefix ++ msg)) (size (prefix ++ msg)) in
      let rb = point_bytes (scalar_base_mult r.0) in
      let k = sized.reduces (blake2b 64 (rb ++ pub_key ++ msg)) (size (rb ++ pub_key ++ msg)) in
      (
        record { first = rb; second = scalar_bytes (multiply_add k.0 a r.0) },
        ground (arith, r.1, k.1),
        sized.point_octets (scalar_base_mult r.0),
        sized.scalar_octets (multiply_add k.0 a r.0),
      )

  public_lem :
      (pk : List ℕ) (a : curve.Scalar) (prefix : List ℕ)
      → expanded_scalar blake2b curve pk ≡ some (a, prefix)
      → public blake2b curve pk ≡ some (point_bytes (scalar_base_mult a))
  unfolding public
  public_lem pk a prefix e =
      ap
        (λ found. elim found [
          | none ↦ none
          | some (scalar, rest) ↦
              some (copy_bytes (zeros 32) (point_bytes (scalar_base_mult scalar)))
        ])
        e
      ∙ ap some (copy_bytes-zeros 32 _ (sized.point_octets (scalar_base_mult a)).0)

  sign_with_lem :
      (pk msg : List ℕ) (a : curve.Scalar) (prefix : List ℕ) (sig : Signature)
      → expanded_scalar blake2b curve pk ≡ some (a, prefix)
      → sign curve blake2b a prefix msg ≡ some sig
      → length sig.first ≡ 32
      → length sig.second ≡ 32
      → sign_with blake2b curve pk msg ≡ some sig
  unfolding sign_with
  sign_with_lem pk msg a prefix sig e signed len_first len_second =
      let copied : Signature → Option Signature = λ s. some (record {
        first = copy_bytes (zeros 32) s.first;
        second = copy_bytes (zeros 32) s.second;
      }) in
      ap
        (λ found. elim found [
          | none ↦ none
          | some (b, rest) ↦ elim (sign curve blake2b b rest msg) [
            | none ↦ none
            | some s ↦ copied s
          ]
        ])
        e
      ∙ ap (λ found. elim found [ none ↦ none | some s ↦ copied s ]) signed
      ∙ (λ t. some (record {
        first = copy_bytes-zeros 32 sig.first len_first t;
        second = copy_bytes-zeros 32 sig.second len_second t;
      }))

  pub answer_challenge-total :
      Sound curve blake2b
      → (pk nonce : List ℕ)
      → (account : List ℕ) × (sig : Signature) × (public blake2b curve pk ≡ some account)
        × (answer_challenge blake2b curve pk nonce ≡ some sig)
        × (verify_challenge curve blake2b account nonce sig ≡ true)
        × IsOctets 32 account
        × IsOctets 32 sig.first
        × IsOctets 32 sig.second
  unfolding public answer_challenge sign_with verify_challenge
  answer_challenge-total sound pk nonce =
      let (a, prefix, expanded) = expanded_scalar-total pk in
      let account = point_bytes (scalar_base_mult a) in
      let msg = auth_challenge_digest curve blake2b nonce account in
      let (sig, signed, first, second) = sign-total a prefix msg in
      let has_account = public_lem pk a prefix expanded in
      (
        account,
        sig,
        has_account,
        ap
              (λ found. elim found [
                | none ↦ none
                | some acc ↦
                    sign_with blake2b curve pk (auth_challenge_digest curve blake2b nonce acc)
              ])
              has_account
            ∙ sign_with_lem pk msg a prefix sig expanded signed first.0 second.0,
        verify-sign curve blake2b sound a prefix msg sig signed,
        sized.point_octets (scalar_base_mult a),
        first,
        second,
      )

  -- Every key has an account, and SignChallenge of the key gives a signature that VerifyChallenge takes for that
  -- account and the same nonce, on a curve that is sound and with arrays of bytes as long as documented: no panic
  -- is met.
  pub verify_challenge-answer_challenge :
      Sound curve blake2b
      → (pk nonce : List ℕ)
      → (account : List ℕ) × (sig : Signature) × (public blake2b curve pk ≡ some account)
        × (answer_challenge blake2b curve pk nonce ≡ some sig)
        × (verify_challenge curve blake2b account nonce sig ≡ true)
  verify_challenge-answer_challenge sound pk nonce =
      let total = answer_challenge-total sound pk nonce in
      (total.0, total.1, total.2, total.3, total.4)
