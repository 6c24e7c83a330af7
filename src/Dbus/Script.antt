-- ===== src/Dbus/Script.antt =====
-- src/rpc/open_xdatachannel.py behind the data channel: the script's own copy of the code for
-- NetworkManager. Where it writes what the class DBUS writes, the class's definitions are used.
pub mod Search
pub mod Agree
pub mod Sweep
pub mod Together
use xmm7360_mvp.Prelude.{
  ℕ, ◌==◌, String, Bool, true, false, ◌&&◌, Option, none, some, List, [], ◌∷◌, map, codes, text_eq,
}
use xmm7360_mvp.Result.{from_option, unbound}
use xmm7360_mvp.Result.Action.{Action, pure, lift, ◌>>=◌, ◌>>◌, change, reads}
use xmm7360_mvp.Rpc.Calls.{Dns}
use xmm7360_mvp.Bytes.{same_bytes}
use xmm7360_mvp.Dbus.Assoc.{get, insert}
use xmm7360_mvp.Dbus.{
  Value, text, dotted, other, numbers, address_data, Settings, Props, NetworkManager, is_text,
  dotted_quad_to_number, new_ipv4, new_connection,
}

-- The global variables; `connection_path` is unbound until a connection was found.
pub record Globals : Type 0 where
  pub myconnection : Option Value
  pub connection_path : Option String

abbrev pub no_globals : Globals
no_globals = record { myconnection = none; connection_path = none }

-- `a == b` of two values.
abbrev pub same_value : Value → Value → Bool
same_value (text t) (text u) = same_bytes t u
same_value (dotted m) (dotted n) = m == n
same_value (other m) (other n) = m == n
same_value (numbers ms) (numbers ns) = same_bytes ms ns
same_value (address_data a m) (address_data b n) = a == b && m == n
same_value _ _ = false

abbrev pub dbus_ip : Dns → List ℕ
dbus_ip dns_values = map dotted_quad_to_number dns_values.v4

-- The test of the name gave the Boolean.
abbrev pub pick : Bool → String → Value → Globals → Globals
pick true path uuid g = record { myconnection = some uuid; connection_path = some path }
pick false path uuid g = g

module _ (N : NetworkManager) where
  -- What the search does with one connection; it prints the three values of each.
  unfoldable pub see : String → Globals → Action N.State Globals
  see path g = do
    config ← reads (N.get_settings path)
    s_con ← lift (get "connection" config)
    id ← lift (get "id" s_con)
    uuid ← lift (get "uuid" s_con)
    _ ← lift (get "type" s_con)
    pure (pick (is_text (codes "xmm7360") id) path uuid g)

  unfoldable pub see_all : List String → Globals → Action N.State Globals
  see_all [] g = pure g
  see_all (path ∷ paths) g = do g' ← see path g; see_all paths g'

  -- The function `get_connections` of the script.
  unfoldable pub find_connections : Globals → Action N.State Globals
  find_connections g = do connection_paths ← reads N.list_connections; see_all connection_paths g

  -- The test of the identifier gave the Boolean; another connection is passed over.
  unfoldable pub renew_if : Bool → ℕ → Dns → String → Settings → Globals → Action N.State Globals
  renew_if true ip_addr dns_values path config g = do
    ipv4 ← lift (get "ipv4" config)
    change (N.update path (insert "ipv4" (new_ipv4 ip_addr (dbus_ip dns_values) ipv4) config))
    pure (record g { connection_path = some path })
  renew_if false ip_addr dns_values path config g = pure g

  unfoldable pub renew : Value → ℕ → Dns → String → Globals → Action N.State Globals
  unfolding renew_if
  renew myconnection ip_addr dns_values path g = do
    config ← reads (N.get_settings path)
    s_con ← lift (get "connection" config)
    uuid ← lift (get "uuid" s_con)
    renew_if (same_value uuid myconnection) ip_addr dns_values path config g

  unfoldable pub renew_all : Value → ℕ → Dns → List String → Globals → Action N.State Globals
  unfolding renew
  renew_all myconnection ip_addr dns_values [] g = pure g
  renew_all myconnection ip_addr dns_values (path ∷ paths) g = do
    g' ← renew myconnection ip_addr dns_values path g
    renew_all myconnection ip_addr dns_values paths g'

  -- `if (myconnection is not None): … else: …`, with the number that `uuid.uuid4()` gives.
  unfoldable pub configure : List ℕ → ℕ → Dns → Option Value → Globals → Action N.State Globals
  unfolding renew_all
  configure uuid ip_addr dns_values (some myconnection) g = do
    connection_paths ← reads N.list_connections
    renew_all myconnection ip_addr dns_values connection_paths g
  configure uuid ip_addr dns_values none g = do
    change (N.add_connection (new_connection uuid ip_addr (dbus_ip dns_values)))
    find_connections g

  unfoldable pub set_managed_if : Bool → String → Action N.State (Unit {0})
  set_managed_if true d = change (N.set_managed d 1)
  set_managed_if false d = pure tt

  -- The test of the interface gave the Boolean.
  unfoldable pub take_device :
      Bool → String → Props → Option String → Action N.State (Option String)
  unfolding set_managed_if
  take_device true d props devpath = do set_managed_if (props.managed == 0) d; pure (some d)
  take_device false d props devpath = pure devpath

  -- The loop over the devices: the last one of the interface is kept.
  unfoldable pub sweep : List String → Option String → Action N.State (Option String)
  unfolding take_device
  sweep [] devpath = pure devpath
  sweep (d ∷ devices) devpath = do
    props ← reads (N.get_all d)
    devpath' ← take_device (text_eq props.interface "wwan0") d props devpath
    sweep devices devpath'

  -- The script's code for NetworkManager; a variable that was never set is a NameError.
  unfoldable pub network_manager : List ℕ → ℕ → Dns → Action N.State (Unit {0})
  unfolding configure
  network_manager uuid ip_addr dns_values = do
    g ← find_connections no_globals
    g' ← configure uuid ip_addr dns_values g.myconnection g
    devices ← reads N.get_devices
    devpath ← sweep devices none
    path ← lift (from_option g'.connection_path unbound)
    device ← lift (from_option devpath unbound)
    change (N.activate_connection path device)
