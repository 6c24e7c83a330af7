-- ===== src/Dbus.antt =====
-- xm_dbus.py: the class DBUS, over a NetworkManager that is a parameter. A D-Bus dictionary is a
-- list of keys and values, in the order of insertion.
pub mod Assoc
pub mod Numbers
pub mod Update
pub mod Connections
pub mod Devices
pub mod SetUp
pub mod Lawful
pub mod Script
use xmm7360_mvp.Prelude.{
  ℕ, ◌==◌, ◌≡◌, String, Bool, true, false, ◌&&◌, Option, none, some, List, [], ◌∷◌, map, text_eq,
  lookup_name, if◌then◌else◌, codes, take,
}
use xmm7360_mvp.Result.{Result, from_option, key, type, attribute}
use xmm7360_mvp.Result.Action.{Action, pure, raise, lift, bind, ◌>>=◌, ◌>>◌, change, reads}
use xmm7360_mvp.Bytes.{same_bytes, be_bytes, from_le}
use xmm7360_mvp.Rpc.Calls.{Dns}
use xmm7360_mvp.Dbus.Assoc.{Dict, get, insert, remove}

-- The values that the program reads and writes. A text is a name, or the dotted form of an address,
-- which is kept as the number that `ipaddress` has for it.
pub data Value : Type 0 where
  text : List ℕ → Value
  dotted : ℕ → Value
  -- Any other value; the number tells them apart.
  other : ℕ → Value
  -- dbus.Array of dbus.UInt32
  numbers : List ℕ → Value
  -- dbus.Array of one dbus.Dictionary with an address and its prefix
  address_data : ℕ → ℕ → Value

abbrev pub Section : Type 0
Section = Dict Value

abbrev pub Settings : Type 0
Settings = Dict Section

-- The properties of a device that the program reads.
pub record Props : Type 0 where
  pub interface : String
  pub managed : ℕ

-- The methods of NetworkManager that the program calls, on a state that is unknown. A path is a text.
pub record NetworkManager : Type 1 where
  pub State : Type 0
  pub list_connections : State → Result (List String)
  pub get_settings : String → State → Result Settings
  pub update : String → Settings → State → Result State
  pub add_connection : Settings → State → Result State
  pub get_devices : State → Result (List String)
  pub get_all : String → State → Result Props
  pub set_managed : String → ℕ → State → Result State
  pub activate_connection : String → String → State → Result State

abbrev pub is_text : List ℕ → Value → Bool
is_text t (text u) = same_bytes u t
is_text t _ = false

-- `struct.unpack('<L', socket.inet_aton(str(ip)))[0]`
unfoldable pub dotted_quad_to_number : ℕ → ℕ
unfolding be_bytes from_le
dotted_quad_to_number ip = from_le (be_bytes 4 ip)

-- The fields of the object.
pub record Dbus : Type 0 where
  pub xmm_connection : Option Section
  pub connection_path : Option String
  pub ip_addr : ℕ
  pub dns_values : Dns
  pub device_path : Option String
  pub device_props : Option Props

unfoldable pub dbus_ipv4_dns : Dbus → List ℕ
dbus_ipv4_dns d = map dotted_quad_to_number d.dns_values.v4

-- What `update_connection` makes of the section `ipv4`.
unfoldable pub new_ipv4 : ℕ → List ℕ → Section → Section
unfolding insert remove
new_ipv4 ip_addr dns ipv4 = insert "dns" (numbers dns) (
    insert "gateway" (dotted ip_addr) (
      insert "address-data" (address_data ip_addr 32)
        (remove "dns" (remove "gateway" (remove "address-data" (remove "addresses" ipv4))))))

-- What `add_connection` sends, with the number that `uuid.uuid4()` gives.
unfoldable pub new_connection : List ℕ → ℕ → List ℕ → Settings
new_connection uuid ip_addr dns =
    (
      "connection",
      ("type", text (codes "generic"))
          ∷ ("uuid", text uuid)
          ∷ ("id", text (codes "xmm7360"))
          ∷ ("interface-name", text (codes "wwan0"))
          ∷ [],
    )
    ∷ (
      "ipv4",
      ("address-data", address_data ip_addr 32)
          ∷ ("gateway", dotted ip_addr)
          ∷ ("method", text (codes "manual"))
          ∷ ("dns", numbers dns)
          ∷ [],
    )
    ∷ ("ipv6", ("method", text (codes "ignore")) ∷ [])
    ∷ []

-- A field that was never set.
abbrev pub attribute_of {ℓ} : {A : Type ℓ} → Option A → Result A
attribute_of o = from_option o attribute

-- `None` is no object path.
abbrev pub path_of : Option String → Result String
path_of o = from_option o type

-- The device is the one, where the test of its interface gave `true`; otherwise the next one is tried.
unfoldable pub found_device :
    {S : Type 0}
    → Bool
    → String
    → Props
    → Dbus
    → Action S (Option String × Dbus)
    → Action S (Option String × Dbus)
found_device true device props d rest =
    pure (some device, record d { device_path = some device; device_props = some props })
found_device false device props d rest = rest

module _ (N : NetworkManager) where
  -- What the search does with one connection, where the test of its name gave the Boolean.
  unfoldable pub remember : Bool → String → Section → Dbus → Action N.State Dbus
  remember true path s_connection d = do
    _ ← lift (get "uuid" s_connection)
    _ ← lift (get "type" s_connection)
    pure (record d { xmm_connection = some s_connection; connection_path = some path })
  remember false path s_connection d = pure d

  unfoldable pub visit : String → Dbus → Action N.State Dbus
  visit path d = do
    config ← reads (N.get_settings path)
    s_connection ← lift (get "connection" config)
    id ← lift (get "id" s_connection)
    remember (is_text (codes "xmm7360") id) path s_connection d

  -- The loop of `get_connections`: the last connection of that name is kept.
  unfoldable pub connections_loop : List String → Dbus → Action N.State Dbus
  connections_loop [] d = pure d
  connections_loop (path ∷ paths) d = do d' ← visit path d; connections_loop paths d'

  unfoldable pub get_connections : Dbus → Action N.State Dbus
  get_connections d = do
    connection_paths ← reads N.list_connections
    connections_loop connection_paths d

  unfoldable pub update_connection : Dbus → Action N.State (Unit {0})
  unfolding new_ipv4
  update_connection d = do
    path ← lift (path_of d.connection_path)
    config ← reads (N.get_settings path)
    ipv4 ← lift (get "ipv4" config)
    change (N.update path (insert "ipv4" (new_ipv4 d.ip_addr (dbus_ipv4_dns d) ipv4) config))

  unfoldable pub add_connection : List ℕ → Dbus → Action N.State (Unit {0})
  add_connection uuid d =
      change (N.add_connection (new_connection uuid d.ip_addr (dbus_ipv4_dns d)))

  -- The loop of `get_device_prop_iface`; without the device it returns `None`.
  unfoldable pub devices_loop : List String → Dbus → Action N.State (Option String × Dbus)
  unfolding found_device
  devices_loop [] d = pure (none, d)
  devices_loop (device ∷ devices) d = do
    props ← reads (N.get_all device)
    found_device (text_eq props.interface "wwan0") device props d (devices_loop devices d)

  unfoldable pub get_device_prop_iface : Dbus → Action N.State (Option String × Dbus)
  get_device_prop_iface d = do devices ← reads N.get_devices; devices_loop devices d

  -- `prop_iface.Set(…)`, where `prop_iface` may be `None`.
  unfoldable pub manage : Option String → Action N.State (Unit {0})
  manage none = raise attribute
  manage (some device) = change (N.set_managed device 1)

  unfoldable pub manage_if : Bool → Option String → Action N.State (Unit {0})
  unfolding manage
  manage_if true prop_iface = manage prop_iface
  manage_if false prop_iface = pure tt

  -- Update the connection that was found, or add one and look again.
  unfoldable pub update_or_add :
      List ℕ → Option Section → Option String → Dbus → Action N.State Dbus
  unfolding update_connection add_connection
  update_or_add uuid (some s_connection) (some path) d = do
    _ ← lift (get "uuid" s_connection)
    update_connection d
    pure d
  update_or_add uuid _ _ d = do add_connection uuid d; get_connections d

  -- What follows the search for the device, which returned `prop_iface`.
  unfoldable pub activate_found : Option String → Dbus → Action N.State (Unit {0})
  unfolding manage_if
  activate_found prop_iface d = do
    device_props ← lift (attribute_of d.device_props)
    manage_if (device_props.managed == 0) prop_iface
    device_path ← lift (attribute_of d.device_path)
    path ← lift (path_of d.connection_path)
    change (N.activate_connection path device_path)

  unfoldable pub activate : Dbus → Action N.State (Unit {0})
  unfolding activate_found
  activate d = do (prop_iface, d') ← get_device_prop_iface d; activate_found prop_iface d'

  unfoldable pub setup_network_manager : List ℕ → ℕ → Dns → Dbus → Action N.State (Unit {0})
  setup_network_manager uuid ip_addr dns_values d = do
    d₁ ← get_connections d
    let d₂ = record d₁ { ip_addr = ip_addr; dns_values = dns_values }
    d₃ ← update_or_add uuid d₂.xmm_connection d₂.connection_path d₂
    activate d₃

-- A new object. The address and the name servers are set before they are read.
abbrev pub new_dbus : Dbus
new_dbus = record {
  xmm_connection = none;
  connection_path = none;
  ip_addr = 0;
  dns_values = record { v4 = []; v6 = [] };
  device_path = none;
  device_props = none;
}
