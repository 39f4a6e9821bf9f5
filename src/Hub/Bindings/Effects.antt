-- ===== src/Hub/Bindings/Effects.antt =====
-- cmd/relay/hub.go: who is bound to an account after `bind` and `unbind`.
use mathlib.Core.List.{reverse-append, reverse-cons, append-nil}
use nora_relay.Base.{
  String, ◌==◌, eq_iff, ◌≡◌, refl, Bool, List, [], ◌∷◌, ◌++◌, reverse, any, if◌then◌else◌, arith,
  nat_eq, Bool-cases, inl, inr,
}
use nora_relay.Base.Map
use nora_relay.Base.Map.{lookup-insert, lookup-remove}
use nora_relay.Hub.Bindings.{
  AgentConn, Routes, devices_at, remove_conn, bind_all, bind, store_rest, unbind_all, unbind,
  devices_for_account,
}

pub remove_conn-append :
    (xs ys : List AgentConn) (c : AgentConn)
    → remove_conn (xs ++ ys) c ≡ remove_conn xs c ++ remove_conn ys c
unfolding remove_conn
remove_conn-append [] ys c = refl
remove_conn-append (x ∷ xs) ys c = ground (arith, remove_conn-append xs ys c)

pub remove_conn_idem :
    (xs : List AgentConn) (c : AgentConn) → remove_conn (remove_conn xs c) c ≡ remove_conn xs c
unfolding remove_conn
remove_conn_idem [] c = refl
remove_conn_idem (x ∷ xs) c = ground (arith, remove_conn_idem xs c)

remove_conn_self : (c : AgentConn) → remove_conn (c ∷ []) c ≡ []
unfolding remove_conn
remove_conn_self c = ground arith

remove_conn_last :
    (xs : List AgentConn) (c : AgentConn)
    → remove_conn (remove_conn xs c ++ c ∷ []) c ≡ remove_conn xs c
remove_conn_last xs c = simp (remove_conn-append, remove_conn_idem, remove_conn_self, append-nil)

pub reverse-remove_conn :
    (xs : List AgentConn) (c : AgentConn) → reverse (remove_conn xs c) ≡ remove_conn (reverse xs) c
unfolding remove_conn
reverse-remove_conn [] c = refl
reverse-remove_conn (x ∷ xs) c = elim (Bool-cases (nat_eq x.pointer c.pointer)) [
  | inl same ↦ ground (
    arith,
    reverse-cons x xs,
    reverse-remove_conn xs c,
    remove_conn-append (reverse xs) (x ∷ []) c,
    append-nil (remove_conn (reverse xs) c),
  )
  | inr differ ↦ ground (
    arith,
    reverse-cons x xs,
    reverse-cons x (remove_conn xs c),
    reverse-remove_conn xs c,
    remove_conn-append (reverse xs) (x ∷ []) c,
  )
]

abbrev pub names : String → List String → Bool
names acc accounts = any (λ x. x == acc) accounts

-- One more binding of the same device changes nothing but its place.
abbrev bound : AgentConn → List AgentConn → List AgentConn
bound a l = remove_conn l a ++ a ∷ []

at_insert :
    (b : Routes) (k acc : String) (l : List AgentConn)
    → devices_at (Map.insert k l b) acc ≡ (if k == acc then l else devices_at b acc)
at_insert b k acc l = ground (arith, lookup-insert b k acc l)

at_store_rest :
    (b : Routes) (k acc : String) (l : List AgentConn)
    → devices_at (store_rest k l b) acc ≡ (if k == acc then l else devices_at b acc)
at_store_rest b k acc [] = ground (arith, lookup-remove b k acc)
at_store_rest b k acc (c ∷ l) = ground (arith, lookup-insert b k acc (c ∷ l))

at_bind_all :
    (accounts : List String) (a : AgentConn) (b : Routes) (acc : String)
    → devices_at (bind_all accounts a b) acc
      ≡ (if names acc accounts then bound a (devices_at b acc) else devices_at b acc)
unfolding bind_all any
at_bind_all [] a b acc = refl
at_bind_all (k ∷ accounts) a b acc =
    let b' = Map.insert k (bound a (devices_at b k)) b in
    ground (
      arith,
      at_bind_all accounts a b' acc,
      at_insert b k acc (bound a (devices_at b k)),
      eq_iff k acc,
      remove_conn_last (devices_at b acc) a,
    )

at_unbind_all :
    (accounts : List String) (a : AgentConn) (b : Routes) (acc : String)
    → devices_at (unbind_all accounts a b) acc
      ≡ (if names acc accounts then remove_conn (devices_at b acc) a else devices_at b acc)
unfolding unbind_all any
at_unbind_all [] a b acc = refl
at_unbind_all (k ∷ accounts) a b acc =
    let b' = store_rest k (remove_conn (devices_at b k) a) b in
    ground (
      arith,
      at_unbind_all accounts a b' acc,
      at_store_rest b k acc (remove_conn (devices_at b k) a),
      eq_iff k acc,
      remove_conn_idem (devices_at b acc) a,
    )

-- After `bind`, the devices of an account that the connection proved begin with the connection,
-- once, and go on with the others in their order; the devices of any other account are the same.
pub devices_for_account-bind :
    (a : AgentConn) (b : Routes) (acc : String)
    → devices_for_account (bind a b) acc ≡ (
        if names acc a.accounts
        then a ∷ remove_conn (devices_for_account b acc) a
        else devices_for_account b acc)
unfolding devices_for_account bind
devices_for_account-bind a b acc = ground (
  arith,
  at_bind_all a.accounts a b acc,
  reverse-append (remove_conn (devices_at b acc) a) (a ∷ []),
  reverse-remove_conn (devices_at b acc) a,
)

-- After `unbind`, the connection is gone from the devices of every account that it proved, and the
-- others keep their order; the devices of any other account are the same.
pub devices_for_account-unbind :
    (a : AgentConn) (b : Routes) (acc : String)
    → devices_for_account (unbind a b) acc ≡ (
        if names acc a.accounts
        then remove_conn (devices_for_account b acc) a
        else devices_for_account b acc)
unfolding devices_for_account unbind
devices_for_account-unbind a b acc =
    ground (arith, at_unbind_all a.accounts a b acc, reverse-remove_conn (devices_at b acc) a)
