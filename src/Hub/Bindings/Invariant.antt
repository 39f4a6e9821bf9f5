-- ===== src/Hub/Bindings/Invariant.antt =====
-- cmd/relay/hub.go: what holds of the bindings after any sequence of `bind` and `unbind`.
use mathlib.Core.List.{reverse-cons}
use nora_relay.Base.{
  String, ◌==◌, eq_iff, ◌≡◌, ◌≢◌, refl, sym, subst, ◌↔◌, true, List, [], ◌∷◌, ◌++◌, reverse, some,
  All, arith, any, length, inl, inr, String-cases, ◌∙◌, ltb,
}
use nora_relay.Base.Map
use nora_relay.Base.Map.{lookup-insert, lookup-remove, lookup-empty}
use nora_relay.Hub.Bindings.{
  AgentConn, Routes, devices_at, remove_conn, bind_all, bind, store_rest, unbind_all, unbind,
  account_online, devices_for_account,
}
use nora_relay.Hub.Bindings.Effects.{names, remove_conn-append}

-- No connection stands twice.
abbrev pub Once : List AgentConn → Type 0
Once [] = Unit
Once (x ∷ xs) = (remove_conn xs x ≡ xs) × Once xs

abbrev pub HasProved : String → AgentConn → Type 0
HasProved acc c = names acc c.accounts ≡ true

pub record Inv (b : Routes) : Type 0 where
  -- An account with no device has no entry.
  pub inhabited : (acc : String) (l : List AgentConn) → Map.lookup b acc ≡ some l → l ≢ []
  pub proven : (acc : String) → All (HasProved acc) (devices_at b acc)
  pub once : (acc : String) → Once (devices_at b acc)

pub remove_conn-All :
    (P : AgentConn → Type 0) (xs : List AgentConn) (c : AgentConn)
    → All P xs
    → All P (remove_conn xs c)
unfolding remove_conn
remove_conn-All P [] c h = tt
remove_conn-All P (x ∷ xs) c h = ground (arith, remove_conn-All P xs c h.1)

append-All :
    (P : AgentConn → Type 0) (xs : List AgentConn) (c : AgentConn)
    → All P xs
    → P c
    → All P (xs ++ c ∷ [])
append-All P [] c h p = (p, tt)
append-All P (x ∷ xs) c h p = (h.0, append-All P xs c h.1 p)

remove_conn_comm :
    (xs : List AgentConn) (c d : AgentConn)
    → remove_conn (remove_conn xs c) d ≡ remove_conn (remove_conn xs d) c
unfolding remove_conn
remove_conn_comm [] c d = refl
remove_conn_comm (x ∷ xs) c d = ground (arith, remove_conn_comm xs c d)

remove_conn-Once : (xs : List AgentConn) (c : AgentConn) → Once xs → Once (remove_conn xs c)
unfolding remove_conn
remove_conn-Once [] c h = tt
remove_conn-Once (x ∷ xs) c h =
    ground (arith, remove_conn-Once xs c h.1, remove_conn_comm xs c x, h.0)

append-Once : (xs : List AgentConn) (c : AgentConn) → Once xs → Once (remove_conn xs c ++ c ∷ [])
unfolding remove_conn
append-Once [] c h = (refl, tt)
append-Once (x ∷ xs) c h = ground (
  arith,
  append-Once xs c h.1,
  remove_conn_comm xs c x,
  h.0,
  remove_conn-append (remove_conn xs c) (c ∷ []) x,
)

append-ne-nil : (xs : List AgentConn) (c : AgentConn) → xs ++ c ∷ [] ≢ []
append-ne-nil [] c e = cc
append-ne-nil (x ∷ xs) c e = cc

insert-Inv :
    (b : Routes) (k : String) (l : List AgentConn)
    → Inv b
    → l ≢ []
    → All (HasProved k) l
    → Once l
    → Inv (Map.insert k l b)
insert-Inv b k l inv some_left mine single = record {
  inhabited =
      λ acc l' e. ground (arith, lookup-insert b k acc l, eq_iff k acc, inv.inhabited acc l');
  proven = λ acc. elim (String-cases k acc) [
    | inl (e, same) ↦ rw (lookup-insert, same) (subst (λ z. All (HasProved z) l) e mine)
    | inr (_, differ) ↦ rw (lookup-insert, differ) (inv.proven acc)
  ];
  once = λ acc. elim (String-cases k acc) [
    | inl (e, same) ↦ rw (lookup-insert, same) single
    | inr (_, differ) ↦ rw (lookup-insert, differ) (inv.once acc)
  ];
}

remove-Inv : (b : Routes) (k : String) → Inv b → Inv (Map.remove k b)
remove-Inv b k inv = record {
  inhabited = λ acc l' e. ground (arith, lookup-remove b k acc, eq_iff k acc, inv.inhabited acc l');
  proven = λ acc. elim (String-cases k acc) [
    | inl (_, same) ↦ rw (lookup-remove, same) tt
    | inr (_, differ) ↦ rw (lookup-remove, differ) (inv.proven acc)
  ];
  once = λ acc. elim (String-cases k acc) [
    | inl (_, same) ↦ rw (lookup-remove, same) tt
    | inr (_, differ) ↦ rw (lookup-remove, differ) (inv.once acc)
  ];
}

store_rest-Inv :
    (b : Routes) (k : String) (l : List AgentConn)
    → Inv b
    → All (HasProved k) l
    → Once l
    → Inv (store_rest k l b)
store_rest-Inv b k [] inv mine single = remove-Inv b k inv
store_rest-Inv b k (c ∷ l) inv mine single = insert-Inv b k (c ∷ l) inv (λ e. cc) mine single

-- Every account of the first list is in the second.
abbrev Among : List String → List String → Type 0
Among accounts all = All (λ k. any (λ x. x == k) all ≡ true) accounts

bind_all-Inv :
    (accounts : List String) (a : AgentConn) (b : Routes)
    → Among accounts a.accounts
    → Inv b
    → Inv (bind_all accounts a b)
unfolding bind_all
bind_all-Inv [] a b mine inv = inv
bind_all-Inv (k ∷ accounts) a b mine inv =
    let others = remove_conn (devices_at b k) a in
    bind_all-Inv accounts a _ mine.1 (
      insert-Inv b k (others ++ a ∷ []) inv (append-ne-nil others a)
        (append-All (HasProved k) others a
          (remove_conn-All (HasProved k) (devices_at b k) a (inv.proven k)) mine.0)
        (append-Once (devices_at b k) a (inv.once k)))

unbind_all-Inv :
    (accounts : List String) (a : AgentConn) (b : Routes) → Inv b → Inv (unbind_all accounts a b)
unfolding unbind_all
unbind_all-Inv [] a b inv = inv
unbind_all-Inv (k ∷ accounts) a b inv = unbind_all-Inv accounts a _ (
    store_rest-Inv b k (remove_conn (devices_at b k) a) inv
      (remove_conn-All (HasProved k) (devices_at b k) a (inv.proven k))
      (remove_conn-Once (devices_at b k) a (inv.once k)))

Among-weaken :
    (x : String) (accounts all : List String) → Among accounts all → Among accounts (x ∷ all)
unfolding any
Among-weaken x [] all h = tt
Among-weaken x (k ∷ accounts) all h = (ground arith, Among-weaken x accounts all h.1)

Among-self : (accounts : List String) → Among accounts accounts
unfolding any
Among-self [] = tt
Among-self (k ∷ accounts) =
    (ground (arith, eq_iff k k), Among-weaken k accounts accounts (Among-self accounts))

-- A connection that comes or goes.
pub data Change : Type 0 where
  joins leaves : AgentConn → Change

unfoldable pub change : Routes → Change → Routes
change b (joins a) = bind a b
change b (leaves a) = unbind a b

unfoldable pub change_all : Routes → List Change → Routes
change_all b [] = b
change_all b (c ∷ cs) = change_all (change b c) cs

pub change-Inv : (b : Routes) (c : Change) → Inv b → Inv (change b c)
unfolding change bind unbind
change-Inv b (joins a) inv = bind_all-Inv a.accounts a b (Among-self a.accounts) inv
change-Inv b (leaves a) inv = unbind_all-Inv a.accounts a b inv

pub bind-Inv : (a : AgentConn) (b : Routes) → Inv b → Inv (bind a b)
unfolding bind
bind-Inv a b inv = bind_all-Inv a.accounts a b (Among-self a.accounts) inv

pub empty-Inv : Inv Map.empty
empty-Inv = record {
  inhabited = λ acc l e. cc (lookup-empty {V = List AgentConn} acc);
  proven = λ acc. rw (lookup-empty {V = List AgentConn} acc) tt;
  once = λ acc. rw (lookup-empty {V = List AgentConn} acc) tt;
}

-- From bindings that satisfy the invariant, any sequence of connections that come and go leads to
-- bindings in which no account has an empty entry, every device of an account has proved that
-- account, and no device stands twice.
pub change_all-Inv : (b : Routes) (cs : List Change) → Inv b → Inv (change_all b cs)
unfolding change_all
change_all-Inv b [] inv = inv
change_all-Inv b (c ∷ cs) inv = change_all-Inv (change b c) cs (change-Inv b c inv)

reverse-All : (P : AgentConn → Type 0) (xs : List AgentConn) → All P xs → All P (reverse xs)
reverse-All P [] h = tt
reverse-All P (x ∷ xs) h =
    rw (reverse-cons x xs) (append-All P (reverse xs) x (reverse-All P xs h.1) h.0)

pub devices_for_account-proven :
    (b : Routes) (acc : String) → Inv b → All (HasProved acc) (devices_for_account b acc)
unfolding devices_for_account
devices_for_account-proven b acc inv = reverse-All (HasProved acc) _ (inv.proven acc)

reverse-ne-nil : (x : AgentConn) (xs : List AgentConn) → reverse (x ∷ xs) ≢ []
reverse-ne-nil x xs e = append-ne-nil (reverse xs) x (sym (reverse-cons x xs) ∙ e)

-- An account is online exactly when the hub has a device to route it to.
pub account_online_iff :
    (b : Routes) (acc : String) → (account_online b acc ≡ true) ↔ (devices_for_account b acc ≢ [])
unfolding account_online devices_for_account
account_online_iff b acc = go (devices_at b acc)
  where
    go : (l : List AgentConn) → (ltb 0 (length l) ≡ true) ↔ (reverse l ≢ [])
    go [] = (λ h. cc, λ h. absurd (h refl))
    go (x ∷ l) = (λ _. reverse-ne-nil x l, λ _. ground arith)
