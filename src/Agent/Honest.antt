-- ===== src/Agent/Honest.antt =====
-- cmd/relay/http.go: the enrollment of a device that answers the challenge with its keys.
use nora_relay.Base.{
  ℕ, String, ◌≡◌, ◌≢◌, refl, sym, ap, ◌∙◌, Bool, true, false, not, List, [], ◌∷◌, ◌++◌, Option,
  none, some, nat_eq, length, All, length-append, some_injective, if◌then◌else◌, arith,
}
use nora_relay.Text.{hex_encode}
use nora_relay.Text.Hex.{hex_decode-hex_encode}
use nora_relay.Nano.Account.{address, take, drop}
use nora_relay.Nano.Account.RoundTrip.{parse_address-address, take-append, drop-append, All-append}
use nora_relay.Nano.Signing.{Curve, Signature, Sound, verify_challenge}
use nora_relay.Nano.Keys.{key_address, answer_challenge}
use nora_relay.Nano.Keys.Challenges.{Sized, IsOctets, answer_challenge-total}
use nora_relay.Protocol.{Envelope}
use nora_relay.Agent.{
  accepted, signature_of, verify_account_sig, has_signed, proven, enroll_proven, enroll, hello_in,
  auth_in,
}

-- The 64 bytes of a signature, in hexadecimal.
abbrev pub signature_hex : Signature → String
signature_hex sig = hex_encode (sig.first ++ sig.second)

module _ (curve : Curve) (blake2b : ℕ → List ℕ → List ℕ) where
  -- The auth message has, for the address of a key, what SignChallenge gives for that key and the nonce.
  pub record IsAnswered (signatures : List (String × String)) (nonce : List ℕ) (addr : String)
      : Type 0 where
    pub key : List ℕ
    pub has_address : key_address blake2b curve key ≡ some addr
    pub sig : Signature
    pub has_answer : answer_challenge blake2b curve key nonce ≡ some sig
    pub is_sent : signature_of signatures addr ≡ some (signature_hex sig)

  module _ (sized : Sized curve blake2b) (sound : Sound curve blake2b) where
    verify_account_sig-signature_hex :
        (account nonce : List ℕ) (sig : Signature)
        → IsOctets 32 account
        → IsOctets 32 sig.first
        → IsOctets 32 sig.second
        → verify_challenge curve blake2b account nonce sig ≡ true
        → verify_account_sig curve blake2b (address blake2b account) nonce (signature_hex sig)
          ≡ true
    unfolding verify_account_sig
    verify_account_sig-signature_hex account nonce sig (len, octets) (len_first, first)
          (len_second, second) verified =
        let sum = sized.digest_octets 5 account (omega arith) (omega arith) in
        let raw = sig.first ++ sig.second in
        let key = parse_address-address blake2b account len octets sum.0 sum.1 in
        let decoded = hex_decode-hex_encode raw (All-append sig.first sig.second first second) in
        let size : length raw ≡ 64 =
          length-append sig.first sig.second ∙ omega (arith, len_first, len_second) in
        let front : take 32 raw ≡ sig.first =
          ap (λ n. take n raw) (sym len_first) ∙ take-append sig.first sig.second in
        let back : drop 32 raw ≡ sig.second =
          ap (λ n. drop n raw) (sym len_first) ∙ drop-append sig.first sig.second in
        let check : Option (List ℕ) → Option (List ℕ) → Bool = λ found got. elim found [
          | none ↦ false
          | some pub_key ↦ elim got [
            | none ↦ false
            | some bs ↦
                if not (nat_eq (length bs) 64)
                then false
                else verify_challenge curve blake2b pub_key nonce
                    (record { first = take 32 bs; second = drop 32 bs })
          ]
        ] in
        (λ t. check (key t) (decoded t))
        ∙ (λ t.
            if not (nat_eq (size t) 64)
            then false
            else verify_challenge curve blake2b account nonce
                (record { first = front t; second = back t }))
        ∙ verified

    has_signed-IsAnswered :
        (signatures : List (String × String)) (nonce : List ℕ) (addr : String)
        → IsAnswered signatures nonce addr
        → has_signed curve blake2b signatures nonce addr ≡ true
    unfolding has_signed key_address
    has_signed-IsAnswered signatures nonce addr h =
        let (account, sig, has_account, answered, verified, octets, first, second) =
          answer_challenge-total curve blake2b sized sound h.key nonce in
        let at_account : key_address blake2b curve h.key ≡ some (address blake2b account) =
          ap (λ found. elim found [ none ↦ none | some acc ↦ some (address blake2b acc) ])
            has_account in
        let same_sig : h.sig ≡ sig = some_injective (sym h.has_answer ∙ answered) in
        let same_addr : addr ≡ address blake2b account =
          some_injective (sym h.has_address ∙ at_account) in
        ap
          (λ found. elim found [
            | none ↦ false
            | some s ↦ verify_account_sig curve blake2b addr nonce s
          ])
          h.is_sent
        ∙ (λ t. verify_account_sig curve blake2b (same_addr t) nonce (signature_hex (same_sig t)))
        ∙ verify_account_sig-signature_hex account nonce sig octets first second verified

    proven-IsAnswered :
        (announced : List String) (signatures : List (String × String)) (nonce : List ℕ)
        → All (IsAnswered signatures nonce) announced
        → proven curve blake2b announced signatures nonce ≡ announced
    unfolding proven
    proven-IsAnswered [] signatures nonce h = refl
    proven-IsAnswered (addr ∷ announced) signatures nonce (h, hs) = ground (
      arith,
      has_signed-IsAnswered signatures nonce addr h,
      proven-IsAnswered announced signatures nonce hs,
    )

    -- A device that announces at least one account, each the address of a key, and answers the challenge with each of
    -- these keys, is enrolled with all the accounts that it announced.
    pub enroll-IsAnswered :
        (pointer : ℕ) (hello : Option Envelope) (nonce : List ℕ) (auth : Option Envelope)
        (device_id : String) (announced : List String) (signatures : List (String × String))
        → hello_in hello ≡ some (device_id, announced)
        → auth_in auth ≡ some signatures
        → announced ≢ []
        → All (IsAnswered signatures nonce) announced
        → enroll curve blake2b pointer hello nonce none auth
          ≡ accepted (record { pointer = pointer; device_id = device_id; accounts = announced })
    unfolding enroll enroll_proven
    enroll-IsAnswered pointer hello nonce auth device_id [] signatures eh ea some_account h =
        ground (arith, some_account)
    enroll-IsAnswered pointer hello nonce auth device_id (addr ∷ announced) signatures eh ea
          some_account h =
        ground (arith, eh, ea, proven-IsAnswered (addr ∷ announced) signatures nonce h)
