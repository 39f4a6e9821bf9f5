-- ===== src/Nano/Signing.antt =====
-- internal/nano/sign.go and auth.go: Verify, and the challenge that an account signs when its device
-- enrolls. The curve of filippo.io/edwards25519 is a record of its operations.
use nora_relay.Base.{
  ℕ, ◌≡◌, List, ◌++◌, Option, none, some, Bool, true, false, inl, inr, Option-cases, arith,
}
use nora_relay.Text.{bytes}

pub record Curve : Type 1 where
  pub Point : Type 0
  pub Scalar : Type 0
  pub point_set_bytes : List ℕ → Option Point
  pub point_bytes : Point → List ℕ
  pub set_bytes_with_clamping : List ℕ → Option Scalar
  pub set_canonical_bytes : List ℕ → Option Scalar
  pub set_uniform_bytes : List ℕ → Option Scalar
  pub scalar_bytes : Scalar → List ℕ
  pub scalar_base_mult : Scalar → Point
  pub scalar_mult : Scalar → Point → Point
  pub add : Point → Point → Point
  pub multiply_add : Scalar → Scalar → Scalar → Scalar
  pub equal : Point → Point → Bool

-- The two halves of the 64 bytes of a Signature.
pub record Signature : Type 0 where
  pub first : List ℕ
  pub second : List ℕ

module _ (curve : Curve) (blake2b : ℕ → List ℕ → List ℕ) where
  open curve use {
    point_set_bytes, point_bytes, set_canonical_bytes, set_uniform_bytes, scalar_bytes,
    scalar_base_mult, scalar_mult, add, multiply_add, equal,
  }

  -- `none` is a panic. `a` and `prefix` are what expandedScalar gives.
  unfoldable pub sign : (a : curve.Scalar) → (prefix : List ℕ) → (msg : List ℕ) → Option Signature
  sign a prefix msg =
      let pub_key = point_bytes (scalar_base_mult a) in
      elim (set_uniform_bytes (blake2b 64 (prefix ++ msg))) [
        | none ↦ none
        | some r ↦
            let rb = point_bytes (scalar_base_mult r) in
            elim (set_uniform_bytes (blake2b 64 (rb ++ pub_key ++ msg))) [
              | none ↦ none
              | some k ↦ some (record { first = rb; second = scalar_bytes (multiply_add k a r) })
            ]
      ]

  unfoldable pub verify : (pub_key : List ℕ) → (msg : List ℕ) → Signature → Bool
  verify pub_key msg sig = elim (point_set_bytes pub_key) [
    | none ↦ false
    | some a ↦ elim (point_set_bytes sig.first) [
      | none ↦ false
      | some r ↦ elim (set_canonical_bytes sig.second) [
        | none ↦ false
        | some s ↦ elim (set_uniform_bytes (blake2b 64 (sig.first ++ pub_key ++ msg))) [
          | none ↦ false
          | some k ↦ equal (scalar_base_mult s) (add r (scalar_mult k a))
        ]
      ]
    ]
  ]

  abbrev pub auth_domain : List ℕ
  auth_domain = bytes "nora-auth-v1"

  unfoldable pub auth_challenge_digest : (nonce account : List ℕ) → List ℕ
  auth_challenge_digest nonce account = blake2b 32 (auth_domain ++ nonce ++ account)

  unfoldable pub verify_challenge : (account nonce : List ℕ) → Signature → Bool
  unfolding verify auth_challenge_digest
  verify_challenge account nonce sig = verify account (auth_challenge_digest nonce account) sig

  unfoldable pub sign_challenge :
      (a : curve.Scalar) → (prefix : List ℕ) → (nonce : List ℕ) → Option Signature
  unfolding sign auth_challenge_digest
  sign_challenge a prefix nonce =
      sign a prefix (auth_challenge_digest nonce (point_bytes (scalar_base_mult a)))

  -- What the source relies on of the curve: encodings round trip, reduction does not fail on what
  -- BLAKE2b-512 gives, and a multiple of a sum is the sum of the multiples.
  pub record Sound : Type 0 where
    pub point_roundtrip : (p : curve.Point) → point_set_bytes (point_bytes p) ≡ some p
    pub scalar_roundtrip : (s : curve.Scalar) → set_canonical_bytes (scalar_bytes s) ≡ some s
    pub base_mult-multiply_add :
        (k a r : curve.Scalar)
        → scalar_base_mult (multiply_add k a r)
          ≡ add (scalar_base_mult r) (scalar_mult k (scalar_base_mult a))
    pub equal_refl : (p : curve.Point) → equal p p ≡ true

  -- A signature that `Sign` makes verifies under the key's public key, for the same message.
  pub verify-sign :
      Sound
      → (a : curve.Scalar) (prefix msg : List ℕ) (sig : Signature) → sign a prefix msg ≡ some sig
      → verify (point_bytes (scalar_base_mult a)) msg sig ≡ true
  unfolding sign verify
  verify-sign sound a prefix msg sig e =
      let pub_key = point_bytes (scalar_base_mult a) in
      elim (Option-cases (set_uniform_bytes (blake2b 64 (prefix ++ msg)))) [
        | inl er ↦ ground (arith, er)
        | inr (r, er) ↦
            let rb = point_bytes (scalar_base_mult r) in
            elim (Option-cases (set_uniform_bytes (blake2b 64 (rb ++ pub_key ++ msg)))) [
              | inl ek ↦ ground (arith, er, ek)
              | inr (k, ek) ↦ ground (
                arith,
                er,
                ek,
                sound.point_roundtrip (scalar_base_mult a),
                sound.point_roundtrip (scalar_base_mult r),
                sound.scalar_roundtrip (multiply_add k a r),
                sound.base_mult-multiply_add k a r,
                sound.equal_refl (scalar_base_mult (multiply_add k a r)),
              )
            ]
      ]

  -- A challenge that `SignChallenge` signs passes `VerifyChallenge` for the key's own account and the
  -- same nonce, on a curve that is sound.
  pub verify_challenge-sign_challenge :
      Sound
      → (a : curve.Scalar) (prefix nonce : List ℕ) (sig : Signature)
      → sign_challenge a prefix nonce ≡ some sig
      → verify_challenge (point_bytes (scalar_base_mult a)) nonce sig ≡ true
  unfolding sign_challenge verify_challenge
  verify_challenge-sign_challenge sound a prefix nonce sig e =
      verify-sign sound a prefix (auth_challenge_digest nonce (point_bytes (scalar_base_mult a)))
        sig e
