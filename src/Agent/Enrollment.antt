-- ===== src/Agent/Enrollment.antt =====
-- cmd/relay/http.go: which accounts an enrolled connection has.
use nora_relay.Base.{
  ℕ, String, eq_iff, ◌≡◌, ◌≢◌, refl, sym, subst, false, ◌&&◌, List, [], ◌∷◌, Option, none, some,
  arith, inl, inr, nat_eq, length, Bool-cases, Option-cases,
}
use nora_relay.Control.{contains}
use nora_relay.Nano.Signing.{Curve}
use nora_relay.Protocol.{Envelope}
use nora_relay.Hub.Bindings.{AgentConn}
use nora_relay.Agent.{accepted, has_signed, proven, enroll_proven, enroll, hello_in, auth_in}

module _ (curve : Curve) (blake2b : ℕ → List ℕ → List ℕ) where
  contains-proven :
      (accounts : List String) (signatures : List (String × String)) (nonce : List ℕ) (acc : String)
      → contains (proven curve blake2b accounts signatures nonce) acc
        ≡ (contains accounts acc && has_signed curve blake2b signatures nonce acc)
  unfolding contains proven
  contains-proven [] signatures nonce acc = refl
  contains-proven (x ∷ accounts) signatures nonce acc =
      ground (arith, contains-proven accounts signatures nonce acc, eq_iff x acc)

  -- An enrolled connection has at least one account, and its accounts are exactly those that the
  -- hello announced and for which the auth message has a signature of the challenge that
  -- verifies under the account's own public key.
  pub enroll-accounts :
      (pointer : ℕ) (hello : Option Envelope) (nonce : List ℕ) (write_error : Option String)
      (auth : Option Envelope) (device_id : String) (announced : List String)
      (signatures : List (String × String)) (a : AgentConn)
      → hello_in hello ≡ some (device_id, announced)
      → auth_in auth ≡ some signatures
      → enroll curve blake2b pointer hello nonce write_error auth ≡ accepted a
      → (a.accounts ≢ [])
        × ((acc : String)
            → contains a.accounts acc
              ≡ (contains announced acc && has_signed curve blake2b signatures nonce acc))
  unfolding enroll enroll_proven
  enroll-accounts pointer hello nonce write_error auth device_id announced signatures a eh ea e =
      elim (Bool-cases (nat_eq (length announced) 0)) [
        | inl nobody ↦ ground (arith, eh, nobody)
        | inr somebody ↦ elim (Option-cases write_error) [
          | inr (text, unwritten) ↦ ground (arith, eh, somebody, unwritten)
          | inl written ↦ go (proven curve blake2b announced signatures nonce) refl somebody written
        ]
      ]
    where
      Goal : List String → Type 0
      Goal accounts =
          (accounts ≢ [])
          × ((acc : String)
              → contains accounts acc
                ≡ (contains announced acc && has_signed curve blake2b signatures nonce acc))

      go :
          (p : List String)
          → proven curve blake2b announced signatures nonce ≡ p
          → nat_eq (length announced) 0 ≡ false
          → write_error ≡ none
          → Goal a.accounts
      go [] ep somebody written = ground (arith, eh, ea, ep, somebody, written)
      go (x ∷ p) ep somebody written =
          let same : a.accounts ≡ x ∷ p = ground (arith, eh, ea, ep, somebody, written) in
          subst Goal (sym same)
            (λ e. cc, λ acc. rw (sym ep) (contains-proven announced signatures nonce acc))
