-- ===== src/Tests/Dbus.antt =====
-- A NetworkManager in memory, and the theorems on it.
use xmm7360_mvp.Prelude.{
  ℕ, ◌^◌, ◌<◌, ◌≡◌, ◌≢◌, refl, String, some, List, [], ◌∷◌, ◌++◌, map, codes, lookup_name, arith,
}
use xmm7360_mvp.Result.{Result, ok, err, from_option, io, attribute}
use xmm7360_mvp.Bytes.{same_bytes, le_bytes, be_bytes, from_le}
use xmm7360_mvp.Rpc.Calls.{Dns}
use xmm7360_mvp.Dbus.Assoc.{Dict, insert, remove}
use xmm7360_mvp.Dbus.{
  text, dotted, other, numbers, address_data, Section, Settings, Props, NetworkManager, Dbus,
  dotted_quad_to_number, dbus_ipv4_dns, new_ipv4, new_connection, remember, visit, connections_loop,
  get_connections, update_connection, add_connection, found_device, devices_loop,
  get_device_prop_iface, manage, manage_if, update_or_add, activate_found, activate,
  setup_network_manager, new_dbus,
}
use xmm7360_mvp.Dbus.Numbers.{dotted_quad_to_number_lem}
use xmm7360_mvp.Dbus.Update.{IsNewIpv4, update_connection-IsNewIpv4}
use xmm7360_mvp.Dbus.Connections.{Searched, get_connections-Searched}
use xmm7360_mvp.Dbus.SetUp.{with_connection, Configured, Activated, setup_network_manager-Activated}

pub record Memory : Type 0 where
  pub connections : Dict Settings
  pub devices : Dict Props
  pub active : List (String × String)

abbrev pub stored : String → Memory → Result Settings
stored path m = from_option (lookup_name path m.connections) io

abbrev pub device_of : String → Memory → Result Props
device_of device m = from_option (lookup_name device m.devices) io

abbrev pub updated : Result Settings → String → Settings → Memory → Result Memory
updated (ok _) path config m = ok (record m { connections = insert path config m.connections })
updated (err e) path config m = err e

abbrev pub managed : Result Props → String → ℕ → Memory → Result Memory
managed (ok props) device n m =
    ok (record m { devices = insert device (record props { managed = n }) m.devices })
managed (err e) device n m = err e

abbrev pub memory : NetworkManager
memory = record {
  State = Memory;
  list_connections = λ m. ok (map (λ (p : String × Settings). p.0) m.connections);
  get_settings = stored;
  update = λ path config m. updated (stored path m) path config m;
  add_connection =
      λ config m. ok (record m { connections = m.connections ++ (("/9", config) ∷ []) });
  get_devices = λ m. ok (map (λ (p : String × Props). p.0) m.devices);
  get_all = device_of;
  set_managed = λ device n m. managed (device_of device m) device n m;
  activate_connection = λ path device m. ok (record m { active = (path, device) ∷ m.active });
}

abbrev names : String → String → Section
names id uuid =
    ("id", text (codes id)) ∷ ("uuid", text (codes uuid)) ∷ ("type", text (codes "generic")) ∷ []

abbrev old_ipv4 : Section
old_ipv4 =
    ("method", text (codes "manual"))
    ∷ ("addresses", other 0)
    ∷ ("dns", numbers (5 ∷ []))
    ∷ ("gateway", dotted 7)
    ∷ []

abbrev pub ours : Settings
ours = ("connection", names "xmm7360" "u") ∷ ("ipv4", old_ipv4) ∷ []

abbrev pub theirs : Settings
theirs = ("connection", names "Home" "h") ∷ []

abbrev two_devices : Dict Props
two_devices =
    ("/lo", record { interface = "lo"; managed = 1 })
    ∷ ("/wwan", record { interface = "wwan0"; managed = 0 })
    ∷ []

abbrev pub known : Memory
known = record {
  connections = ("/1", theirs) ∷ ("/2", ours) ∷ [];
  devices = two_devices;
  active = [];
}

abbrev unknown : Memory
unknown = record known { connections = ("/1", theirs) ∷ [] }

abbrev pub servers : Dns
servers = record { v4 = 0x08080404 ∷ []; v6 = [] }

abbrev set_ipv4 : Section
set_ipv4 =
    ("method", text (codes "manual"))
    ∷ ("address-data", address_data 0x0a141e28 32)
    ∷ ("gateway", dotted 0x0a141e28)
    ∷ ("dns", numbers (0x04040808 ∷ []))
    ∷ []

abbrev set : Settings
set = ("connection", names "xmm7360" "u") ∷ ("ipv4", set_ipv4) ∷ []

abbrev pub updated_memory : Memory
updated_memory = record known { connections = ("/1", theirs) ∷ ("/2", set) ∷ [] }

abbrev managed_devices : Dict Props
managed_devices =
    ("/lo", record { interface = "lo"; managed = 1 })
    ∷ ("/wwan", record { interface = "wwan0"; managed = 1 })
    ∷ []

abbrev found : Dbus
found = with_connection (some (names "xmm7360" "u")) (some "/2") 0x0a141e28 servers

dotted_quad_to_number_lem_example :
    (dotted_quad_to_number 0x0a141e28 < 2 ^ 32)
    × (le_bytes 4 (dotted_quad_to_number 0x0a141e28) ≡ be_bytes 4 0x0a141e28)
    × (dotted_quad_to_number (dotted_quad_to_number 0x0a141e28) ≡ 0x0a141e28)
dotted_quad_to_number_lem_example = dotted_quad_to_number_lem 0x0a141e28 (omega arith)

update_sent : update_connection memory found known ≡ (ok tt, updated_memory)
unfolding update_connection new_ipv4 dbus_ipv4_dns dotted_quad_to_number be_bytes from_le insert
    remove lookup_name
update_sent = refl

update_connection-IsNewIpv4_example :
    (path : String) × (config sent : Settings) × (old new : Section) × (found.connection_path
      ≡ some path)
    × (memory.get_settings path known ≡ ok config)
    × (lookup_name "ipv4" config ≡ some old)
    × (lookup_name "ipv4" sent ≡ some new)
    × IsNewIpv4 found.ip_addr (dbus_ipv4_dns found) old new
    × ((k : String) → k ≢ "ipv4" → lookup_name k sent ≡ lookup_name k config)
    × (memory.update path sent known ≡ ok updated_memory)
update_connection-IsNewIpv4_example =
    update_connection-IsNewIpv4 memory found known updated_memory update_sent

abbrev found_ours : Dbus
found_ours = record new_dbus {
  xmm_connection = some (names "xmm7360" "u");
  connection_path = some "/2";
}

ours_found : get_connections memory new_dbus known ≡ (ok found_ours, known)
unfolding get_connections connections_loop visit remember lookup_name same_bytes
ours_found = refl

get_connections-Searched_example :
    (paths : List String) × (memory.list_connections known ≡ ok paths)
    × (known ≡ known)
    × Searched memory known new_dbus paths found_ours
get_connections-Searched_example =
    get_connections-Searched memory new_dbus found_ours known known ours_found

abbrev pub set_up : Memory
set_up = record {
  connections = ("/1", theirs) ∷ ("/2", set) ∷ [];
  devices = managed_devices;
  active = ("/2", "/wwan") ∷ [];
}

was_set_up :
    setup_network_manager memory (codes "u") 0x0a141e28 servers new_dbus known ≡ (ok tt, set_up)
unfolding setup_network_manager update_or_add activate activate_found manage_if manage
    get_device_prop_iface devices_loop found_device update_connection new_ipv4 dbus_ipv4_dns
    dotted_quad_to_number be_bytes from_le insert remove lookup_name get_connections
    connections_loop visit remember same_bytes
was_set_up = refl

setup_network_manager-Activated_example :
    (path : String) × (t : Memory) × Configured memory (codes "u") 0x0a141e28 servers known path t
    × Activated memory t path set_up
setup_network_manager-Activated_example =
    setup_network_manager-Activated memory (codes "u") 0x0a141e28 servers known set_up was_set_up

-- The same without the connection.
abbrev added : Settings
added = new_connection (codes "u") 0x0a141e28 (0x04040808 ∷ [])

was_added : setup_network_manager memory (codes "u") 0x0a141e28 servers new_dbus unknown ≡ (
  ok tt,
  record {
    connections = ("/1", theirs) ∷ ("/9", added) ∷ [];
    devices = managed_devices;
    active = ("/9", "/wwan") ∷ [];
  },
)
unfolding setup_network_manager update_or_add activate activate_found manage_if manage
    get_device_prop_iface devices_loop found_device add_connection new_connection dbus_ipv4_dns
    dotted_quad_to_number be_bytes from_le insert lookup_name get_connections connections_loop visit
    remember same_bytes
was_added = refl

-- The same without the device.
no_device :
    setup_network_manager memory
      (codes "u")
      0x0a141e28
      servers
      new_dbus
      (record known { devices = [] })
    ≡ (err attribute, record updated_memory { devices = [] })
unfolding setup_network_manager update_or_add activate activate_found get_device_prop_iface
    devices_loop found_device update_connection new_ipv4 dbus_ipv4_dns dotted_quad_to_number
    be_bytes from_le insert remove lookup_name get_connections connections_loop visit remember
    same_bytes
no_device = refl
