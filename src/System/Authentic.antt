-- ===== src/System/Authentic.antt =====
-- cmd/relay: who stands behind the bindings of the hub, in every state of the relay.
use nora_relay.Base.{
  ℕ, String, ◌≡◌, refl, sym, ◌∙◌, true, List, [], ◌∷◌, none, some, All, any, both, arith, inl, inr,
  Bool-cases, Option-cases,
}
use nora_relay.Base.Map
use nora_relay.Base.Map.{lookup-empty}
use nora_relay.Protocol.{TxResult, QueryResult}
use nora_relay.Nano.Signing.{Curve}
use nora_relay.Hub.{
  Hub, Event, results, query_results, joins, leaves, apply, new_hub, deliver_result,
  deliver_query_result,
}
use nora_relay.Hub.Bindings.{AgentConn, Routes, devices_for_account}
use nora_relay.Hub.Bindings.Effects.{names, devices_for_account-bind, devices_for_account-unbind}
use nora_relay.Hub.Bindings.Invariant.{
  Inv, HasProved, empty-Inv, remove_conn-All, devices_for_account-proven,
}
use nora_relay.Hub.Discipline.{Discipline, apply-Inv}
use nora_relay.Control.{contains}
use nora_relay.Store.{Store}
use nora_relay.Api.{Request, Server, Call}
use nora_relay.Api.Build.{Outside}
use nora_relay.Api.Confined.{Confined, caller}
use nora_relay.Api.Exposure.{routes-Keeps}
use nora_relay.Api.Routes.{routes}
use nora_relay.Agent.{enroll, enroll_proven, has_signed, hello_in, auth_in}
use nora_relay.Agent.Enrollment.{enroll-accounts}
use nora_relay.Agent.Session.{dispatch-hub}
use nora_relay.Hub.Freshness.{apply-requests, apply-queries}
use nora_relay.Hub.Waiters.First.{IsFresh, empty-IsFresh}
use nora_relay.System.{
  Enrollment, Happens, Step, connects, ends, says, asks, asks_detached, prunes, Reach, starts, next,
}

pub names-contains : (acc : String) (list : List String) → names acc list ≡ contains list acc
unfolding contains any
names-contains acc [] = refl
names-contains acc (x ∷ list) = ground (arith, names-contains acc list)

module _ (curve : Curve) (blake2b : ℕ → List ℕ → List ℕ) where
  -- The device announced the account, and signed the nonce of its connection with the key of the account.
  pub record Authorised (acc : String) (a : AgentConn) : Type 0 where
    pub enrollment : Enrollment curve blake2b a
    pub device_id : String
    pub announced : List String
    pub signatures : List (String × String)
    pub has_hello : hello_in enrollment.hello ≡ some (device_id, announced)
    pub has_auth : auth_in enrollment.auth ≡ some signatures
    pub is_announced : contains announced acc ≡ true
    pub is_signed : has_signed curve blake2b signatures enrollment.nonce acc ≡ true

  pub enrolled-Authorised :
      (a : AgentConn) (acc : String)
      → Enrollment curve blake2b a
      → HasProved acc a
      → Authorised acc a
  unfolding enroll enroll_proven
  enrolled-Authorised a acc e proved = elim (Option-cases (hello_in e.hello)) [
    | inl silent ↦ absurd (ground (arith, silent, e.gives))
    | inr ((device_id, announced), eh) ↦ elim (Option-cases (auth_in e.auth)) [
      | inl unsigned ↦ absurd (ground (arith, eh, unsigned, e.gives))
      | inr (signatures, ea) ↦
          let exact =
            enroll-accounts curve blake2b e.pointer e.hello e.nonce none e.auth device_id announced
              signatures a eh ea e.gives in
          let held = both _ _ (sym (exact.1 acc) ∙ sym (names-contains acc a.accounts) ∙ proved) in
          record {
            enrollment = e;
            device_id = device_id;
            announced = announced;
            signatures = signatures;
            has_hello = eh;
            has_auth = ea;
            is_announced = held.0;
            is_signed = held.1;
          }
    ]
  ]

  -- Every device of an account has enrolled, and has proved the account.
  pub record IsAuthentic (b : Routes) : Type 0 where
    pub inv : Inv b
    pub enrolled : (acc : String) → All (Enrollment curve blake2b) (devices_for_account b acc)

  empty-IsAuthentic : IsAuthentic Map.empty
  unfolding devices_for_account
  empty-IsAuthentic = record {
    inv = empty-Inv;
    enrolled = λ acc. rw (lookup-empty {V = List AgentConn} acc) tt;
  }

  bind-IsAuthentic :
      (a : AgentConn) (h : Hub)
      → Enrollment curve blake2b a
      → IsAuthentic h.bindings
      → IsAuthentic (apply (joins a) h).bindings
  unfolding apply
  bind-IsAuthentic a h e good = record {
    inv = apply-Inv (joins a) h good.inv;
    enrolled = λ acc. elim (Bool-cases (names acc a.accounts)) [
      | inl named ↦
          rw (devices_for_account-bind a h.bindings acc, named)
            (e, remove_conn-All (Enrollment curve blake2b) _ a (good.enrolled acc))
      | inr other ↦ rw (devices_for_account-bind a h.bindings acc, other) (good.enrolled acc)
    ];
  }

  unbind-IsAuthentic :
      (a : AgentConn) (h : Hub) → IsAuthentic h.bindings → IsAuthentic (apply (leaves a) h).bindings
  unfolding apply
  unbind-IsAuthentic a h good = record {
    inv = apply-Inv (leaves a) h good.inv;
    enrolled = λ acc. elim (Bool-cases (names acc a.accounts)) [
      | inl named ↦
          rw (devices_for_account-unbind a h.bindings acc, named)
            (remove_conn-All (Enrollment curve blake2b) _ a (good.enrolled acc))
      | inr other ↦ rw (devices_for_account-unbind a h.bindings acc, other) (good.enrolled acc)
    ];
  }

  apply-IsAuthentic :
      (e : Event) (h : Hub)
      → Happens curve blake2b e
      → IsAuthentic h.bindings
      → IsAuthentic (apply e h).bindings
  unfolding apply deliver_result deliver_query_result
  apply-IsAuthentic (joins a) h e good = bind-IsAuthentic a h e good
  apply-IsAuthentic (leaves a) h e good = unbind-IsAuthentic a h good
  apply-IsAuthentic _ h e good = good

  All-Authorised :
      (acc : String) (ds : List AgentConn)
      → All (Enrollment curve blake2b) ds
      → All (HasProved acc) ds
      → All (Authorised acc) ds
  All-Authorised acc [] es ps = tt
  All-Authorised acc (d ∷ ds) es ps =
      (enrolled-Authorised d acc es.0 ps.0, All-Authorised acc ds es.1 ps.1)

  -- The bindings are authentic, and the next channel of each table of waiting calls is nobody's yet.
  pub record IsSound (h : Hub) : Type 0 where
    pub authentic : IsAuthentic h.bindings
    pub requests : IsFresh h.requests
    pub queries : IsFresh h.queries

  apply-IsSound : (e : Event) (h : Hub) → Happens curve blake2b e → IsSound h → IsSound (apply e h)
  apply-IsSound e h happens sound = record {
    authentic = apply-IsAuthentic e h happens sound.authentic;
    requests = apply-requests e h sound.requests;
    queries = apply-queries e h sound.queries;
  }

  abbrev sound : Discipline
  sound = record {
    Good = IsSound;
    Holds = Authorised;
    Happens = Happens curve blake2b;
    devices = λ h acc good.
        All-Authorised acc _ (good.authentic.enrolled acc)
          (devices_for_account-proven h.bindings acc good.authentic.inv);
    apply-Good = λ e h happens good. apply-IsSound e h happens good;
    opens_request = λ id. tt;
    closes_request = λ id. tt;
    opens_query = λ id. tt;
    closes_query = λ id. tt;
  }

  module _ {S : Type 0} (store : Store S) (o : Outside) where
    Step-IsSound :
        {sv sv' : Server S} → Step curve blake2b store o sv sv' → IsSound sv.hub → IsSound sv'.hub
    unfolding apply
    Step-IsSound {sv} (connects a e) good = apply-IsSound (joins a) sv.hub e good
    Step-IsSound {sv} (ends a) good = apply-IsSound (leaves a) sv.hub tt good
    Step-IsSound {sv} (says a e env) good =
        dispatch-hub store a IsSound env sv.hub sv.store good
          (λ res. apply-IsSound (results res) sv.hub tt good)
          (λ id qr. apply-IsSound (query_results id qr) sv.hub tt good)
    Step-IsSound {sv} (asks r call happen) good =
        (routes-Keeps sound store o call r sv happen good).good
    Step-IsSound {sv} (asks_detached r call rl happen) good =
        (routes-Keeps sound store o call r (record sv { rl = rl }) happen good).good
    Step-IsSound (prunes now) good = good

    -- In every state that the relay reaches from its start, no account has an empty entry in the hub, no device stands
    -- twice under an account, every device under an account has enrolled and has proved the account, and no call
    -- waits on the channel that the next call of its kind will get.
    pub Reach-IsSound : {s : S} {sv : Server S} → Reach curve blake2b store o s sv → IsSound sv.hub
    unfolding new_hub
    Reach-IsSound starts = record {
      authentic = empty-IsAuthentic;
      requests = empty-IsFresh TxResult;
      queries = empty-IsFresh QueryResult;
    }
    Reach-IsSound (next r st) = Step-IsSound st (Reach-IsSound r)

    -- In every state that the relay reaches from its start, whatever a caller sends: without a token that resolves to a
    -- key nothing is written to any device; with one, every message goes to a device which announced the account of
    -- that key and signed the nonce of its connection with the account's key, and a request or query in it names that
    -- key and that account. This holds whatever connects, ends and answers while the caller waits, where a connection is
    -- bound only after it has enrolled.
    pub Reach-Confined :
        {s : S} {sv : Server S} (call : Call) (r : Request)
        → Reach curve blake2b store o s sv
        → All (Happens curve blake2b) call.events
        → Confined Authorised (caller store r sv) (routes store o call r sv).1
    Reach-Confined {s} {sv} call r reached happen =
        (routes-Keeps sound store o call r sv happen (Reach-IsSound reached)).confined
