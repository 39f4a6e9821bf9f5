-- ===== src/Hub/Bindings.antt =====
-- cmd/relay/hub.go: the devices that are bound to each account. Each function holds `h.mu`, so it is
-- one step. A connection is told from another by its pointer.
pub mod Effects
pub mod Invariant
use nora_relay.Base.{
  ℕ, zero, suc, String, Bool, true, false, not, List, [], ◌∷◌, ◌++◌, reverse, Option, none, some,
  or_zero, nat_eq, ltb, length, if◌then◌else◌,
}
use nora_relay.Base.Map
use nora_relay.Base.Map.{Map}

-- agentConn: the accounts are those that the device proved.
pub record AgentConn : Type 0 where
  pub pointer : ℕ
  pub device_id : String
  pub accounts : List String

abbrev pub Routes : Type 0
Routes = Map (List AgentConn)

-- h.bindings[account]: nil if it is missing
abbrev pub devices_at : Routes → String → List AgentConn
devices_at b account = or_zero [] (Map.lookup b account)

unfoldable pub remove_conn : List AgentConn → AgentConn → List AgentConn
remove_conn [] c = []
remove_conn (x ∷ list) c =
    let rest = remove_conn list c in if nat_eq x.pointer c.pointer then rest else x ∷ rest

-- The loops over `a.accounts` of `bind` and `unbind`.
unfoldable pub bind_all : List String → AgentConn → Routes → Routes
bind_all [] a b = b
bind_all (acc ∷ accounts) a b =
    bind_all accounts a (Map.insert acc (remove_conn (devices_at b acc) a ++ a ∷ []) b)

unfoldable pub bind : AgentConn → Routes → Routes
bind a b = bind_all a.accounts a b

abbrev pub store_rest : String → List AgentConn → Routes → Routes
store_rest acc [] b = Map.remove acc b
store_rest acc (c ∷ rest) b = Map.insert acc (c ∷ rest) b

unfoldable pub unbind_all : List String → AgentConn → Routes → Routes
unbind_all [] a b = b
unbind_all (acc ∷ accounts) a b =
    unbind_all accounts a (store_rest acc (remove_conn (devices_at b acc) a) b)

unfoldable pub unbind : AgentConn → Routes → Routes
unbind a b = unbind_all a.accounts a b

unfoldable pub account_online : Routes → String → Bool
account_online b account = ltb 0 (length (devices_at b account))

-- Most recent first.
unfoldable pub devices_for_account : Routes → String → List AgentConn
devices_for_account b account = reverse (devices_at b account)
