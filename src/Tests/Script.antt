-- ===== src/Tests/Script.antt =====
-- The script's code for NetworkManager, on the one in memory.
use xmm7360_mvp.Prelude.{◌≡◌, refl, [], some, codes}
use xmm7360_mvp.Result.{ok, err, unbound}
use xmm7360_mvp.Bytes.{same_bytes, be_bytes, from_le}
use xmm7360_mvp.Dbus.Assoc.{insert, remove}
use xmm7360_mvp.Dbus.{text, Dbus, dotted_quad_to_number, new_ipv4, get_connections, new_dbus}
use xmm7360_mvp.Dbus.Script.{
  Globals, no_globals, see, see_all, find_connections, renew_if, renew, renew_all, configure,
  set_managed_if, take_device, sweep, network_manager,
}
use xmm7360_mvp.Dbus.Script.Search.{Same, get_connections-Same}
use xmm7360_mvp.Prelude.{lookup_name}
use xmm7360_mvp.Tests.Dbus.{memory, known, set_up, updated_memory, servers}

abbrev known_globals : Globals
known_globals = record { myconnection = some (text (codes "u")); connection_path = some "/2" }

script_found : find_connections memory no_globals known ≡ (ok known_globals, known)
unfolding find_connections see_all see lookup_name same_bytes
script_found = refl

get_connections-Same_example :
    (known ≡ known)
    × (d : Dbus) × (get_connections memory new_dbus known ≡ (ok d, known))
    × Same known_globals d
get_connections-Same_example = get_connections-Same memory known known known_globals script_found

-- The script's code where the connection is known.
pub script_set_up : network_manager memory (codes "u") 0x0a141e28 servers known ≡ (ok tt, set_up)
unfolding network_manager configure renew_all renew renew_if sweep take_device set_managed_if
    find_connections see_all see new_ipv4 dotted_quad_to_number be_bytes from_le insert remove
    lookup_name same_bytes
script_set_up = refl

-- The same without the device.
script_no_device :
    network_manager memory (codes "u") 0x0a141e28 servers (record known { devices = [] })
    ≡ (err unbound, record updated_memory { devices = [] })
unfolding network_manager configure renew_all renew renew_if sweep find_connections see_all see
    new_ipv4 dotted_quad_to_number be_bytes from_le insert remove lookup_name same_bytes
script_no_device = refl
