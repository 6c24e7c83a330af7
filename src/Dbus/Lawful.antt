-- ===== src/Dbus/Lawful.antt =====
-- What the two copies of the code rely on in NetworkManager.
use xmm7360_mvp.Prelude.{◌≡◌, ◌≢◌, ℕ, String, true, some, List, [], ◌∷◌, All, lookup_name}
use xmm7360_mvp.Result.{ok}
use xmm7360_mvp.Dbus.{Value, Section, Settings, Props, NetworkManager}
use xmm7360_mvp.Dbus.Devices.{Device}

-- The connection at the path has this identifier.
pub record UuidOf (N : NetworkManager) (s : N.State) (path : String) (uuid : Value) : Type 0 where
  pub config : Settings
  pub section : Section
  pub read : N.get_settings path s ≡ ok config
  pub found : lookup_name "connection" config ≡ some section
  pub named : lookup_name "uuid" section ≡ some uuid

-- Every path is another one than this.
abbrev pub Others : String → List String → Type 0
Others path qs = All (λ q. q ≢ path) qs

-- No path twice.
abbrev pub Distinct : List String → Type 0
Distinct [] = Unit {0}
Distinct (p ∷ ps) = Others p ps × Distinct ps

-- Methods change what they are documented to change: updating a connection leaves the others and
-- the devices, adding one leaves the devices, and managing a device leaves the other devices.
pub record IsLawful (N : NetworkManager) : Type 0 where
  pub update_others :
      (path : String) (config : Settings) (s t : N.State) (q : String)
      → N.update path config s ≡ ok t
      → q ≢ path
      → N.get_settings q t ≡ N.get_settings q s
  pub update_devices :
      (path : String) (config : Settings) (s t : N.State)
      → N.update path config s ≡ ok t
      → (N.get_devices t ≡ N.get_devices s) × ((e : String) → N.get_all e t ≡ N.get_all e s)
  pub add_devices :
      (config : Settings) (s t : N.State)
      → N.add_connection config s ≡ ok t
      → (N.get_devices t ≡ N.get_devices s) × ((e : String) → N.get_all e t ≡ N.get_all e s)
  pub manage_others :
      (device : String) (n : ℕ) (s t : N.State) (e : String)
      → N.set_managed device n s ≡ ok t
      → e ≢ device
      → N.get_all e t ≡ N.get_all e s

-- Identifiers and interfaces are unique, and the lists name nothing twice.
pub record IsUnique (N : NetworkManager) (s : N.State) : Type 0 where
  pub connections_once : (paths : List String) → N.list_connections s ≡ ok paths → Distinct paths
  pub devices_once : (devices : List String) → N.get_devices s ≡ ok devices → Distinct devices
  pub uuids : (p q : String) (a : Value) → UuidOf N s p a → UuidOf N s q a → q ≡ p
  pub interfaces : (d e : String) (x y : Props) → Device N true s d x → Device N true s e y → e ≡ d
