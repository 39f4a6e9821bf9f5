-- ===== src/Control.antt =====
-- cmd/relay/http.go: handleControl, the API-key management and policy sync of an enrolled agent, over
-- any `Store`. The reply goes out by one write at the end, whose error the source drops.
pub mod Authority
pub mod Rebind
pub mod Takeover
pub mod Scope
mod Tests
use nora_relay.Base.{
  ℤ, pos, String, ◌==◌, Bool, true, false, not, ◌||◌, List, [], ◌∷◌, Option, none, some, ltb,
  length, if◌then◌else◌, any,
}
use nora_relay.Protocol.{Control}
use nora_relay.Hub.Bindings.{AgentConn}
use nora_relay.Store.{Store, StoreError, PolicyBlob, message}

-- contains(list, v)
unfoldable pub contains : List String → String → Bool
contains [] v = false
contains (x ∷ list) v = x == v || contains list v

abbrev pub not_yours : String
not_yours = "you do not control that account on this device"

-- &protocol.Control{Op: "result", CorrID: c.CorrID}
abbrev pub blank_reply : Control → Control
blank_reply c = record {
  op = "result";
  corr_id = c.corr_id;
  account = "";
  key_id = "";
  hash = "";
  allowed_origins = [];
  version = pos 0;
  blob = [];
  error = "";
}

abbrev pub refuse : Control → String → Control
refuse c text = record (blank_reply c) { error = text }

module _ {S : Type 0} (store : Store S) where
  -- The loop of "rebind_key" over the proven accounts.
  unfoldable pub rebind_any : List String → Control → S → Bool × S
  rebind_any [] c s = (false, s)
  rebind_any (acc ∷ accounts) c s =
      let (s', e) = store.rebind_api_key s c.key_id acc c.account in
      elim e [ none ↦ (true, s') | some _ ↦ rebind_any accounts c s' ]

  -- The loop of "revoke_key" over the proven accounts.
  unfoldable pub revoke_any : List String → Control → S → Bool × S
  revoke_any [] c s = (false, s)
  revoke_any (acc ∷ accounts) c s =
      let (s', e) = store.revoke_api_key s acc c.key_id in
      elim e [ none ↦ (true, s') | some _ ↦ revoke_any accounts c s' ]

  module _ (a : AgentConn) (c : Control) where
    unfoldable pub register_key : S → Control × S
    register_key s =
        if not (contains a.accounts c.account)
        then (refuse c not_yours, s)
        else if c.key_id == "" || c.hash == ""
        then (refuse c "register_key requires key_id and hash", s)
        else (let (s', e) = store.register_api_key s c.key_id c.account c.hash in
            elim e [
              | some err ↦ (refuse c (message err), s')
              | none ↦ (
                record (blank_reply c) { account = c.account; key_id = c.key_id },
                (if ltb 0 (length c.allowed_origins)
                    then (store.update_key_origins s' c.key_id c.account c.allowed_origins).0
                    else s'),
              )
            ])

    unfoldable pub rebind_key : S → Control × S
    rebind_key s =
        if not (contains a.accounts c.account)
        then (refuse c not_yours, s)
        else if c.key_id == ""
        then (refuse c "rebind_key requires key_id", s)
        else (let (rebound, s') = rebind_any a.accounts c s in
            if not rebound
            then (refuse c "key not found", s')
            else (record (blank_reply c) { account = c.account; key_id = c.key_id }, s'))

    unfoldable pub revoke_key : S → Control × S
    revoke_key s =
        let (revoked, s') = revoke_any a.accounts c s in
        (if revoked then blank_reply c else refuse c "key not found", s')

    unfoldable pub update_origins : S → Control × S
    update_origins s =
        if not (contains a.accounts c.account)
        then (refuse c not_yours, s)
        else if c.key_id == ""
        then (refuse c "update_origins requires key_id", s)
        else (let (s', e) = store.update_key_origins s c.key_id c.account c.allowed_origins in
            elim e [
              | some err ↦ (refuse c (message err), s')
              | none ↦ (record (blank_reply c) { key_id = c.key_id }, s')
            ])

    unfoldable pub put_policy : S → Control × S
    put_policy s =
        if not (contains a.accounts c.account)
        then (refuse c not_yours, s)
        else (let (s', e) = store.put_policy s c.account c.version c.blob in
            elim e [ some err ↦ (refuse c (message err), s') | none ↦ (blank_reply c, s') ])

    abbrev with_blob : Option PolicyBlob → Control
    with_blob none = record (blank_reply c) { account = c.account }
    with_blob (some p) = record (blank_reply c) {
      account = c.account;
      version = p.version;
      blob = p.blob;
    }

    unfoldable pub get_policy : S → Control × S
    get_policy s =
        if not (contains a.accounts c.account)
        then (refuse c not_yours, s)
        else (let (found, e) = store.get_policy s c.account in
            elim e [ some err ↦ (refuse c (message err), s) | none ↦ (with_blob found, s) ])

    unfoldable pub handle_control : S → Control × S
    handle_control s =
        if c.op == "register_key"
        then register_key s
        else if c.op == "rebind_key"
        then rebind_key s
        else if c.op == "revoke_key"
        then revoke_key s
        else if c.op == "update_origins"
        then update_origins s
        else if c.op == "put_policy"
        then put_policy s
        else if c.op == "get_policy"
        then get_policy s
        else (refuse c "unknown control op", s)
