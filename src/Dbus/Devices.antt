-- ===== src/Dbus/Devices.antt =====
-- About looking for the device of the interface `wwan0`.
use mathlib.Core.Path.{subst}
use xmm7360_mvp.Prelude.{
  ◌≡◌, refl, String, Bool, true, false, Option, none, some, List, [], ◌∷◌, ◌++◌, text_eq, All,
}
use xmm7360_mvp.Result.{ok}
use xmm7360_mvp.Result.Action.{Action}
use xmm7360_mvp.Result.Action.Laws.{lift-ok, pure-ok}
use xmm7360_mvp.Dbus.{
  Props, NetworkManager, Dbus, found_device, devices_loop, get_device_prop_iface,
}

-- The device at the path has these properties, of the interface `wwan0` or of another.
pub record Device (N : NetworkManager) (ours : Bool) (s : N.State) (device : String) (props : Props)
    : Type 0 where
  pub read : N.get_all device s ≡ ok props
  pub test : text_eq props.interface "wwan0" ≡ ours

abbrev pub Other : (N : NetworkManager) → N.State → String → Type 0
Other N s device = (props : Props) × Device N false s device props

-- What the search returns and makes of the object: the first device of the interface, or `None`.
pub data Looked (N : NetworkManager) (s : N.State) (d : Dbus)
    : List String → Option String × Dbus → Type 0 where
  absent : {devices : List String} → All (Other N s) devices → Looked N s d devices (none, d)
  first :
      (before after : List String) (device : String) (props : Props)
      → All (Other N s) before
      → Device N true s device props
      → Looked N s d
          (before ++ (device ∷ after))
          (some device, record d { device_path = some device; device_props = some props })

Looked-cons :
    {N : NetworkManager} {s : N.State} {d : Dbus} {device : String} {devices : List String}
    {r : Option String × Dbus}
    → Other N s device
    → Looked N s d devices r
    → Looked N s d (device ∷ devices) r
Looked-cons c (absent cs) = absent (c, cs)
Looked-cons {device} c (first before after e props cs k) =
    first (device ∷ before) after e props (c, cs) k

found_device-Looked :
    (N : NetworkManager) (s u : N.State) (ours : Bool) (device : String) (devices : List String)
    (d : Dbus) (props : Props) (rest : Action N.State (Option String × Dbus))
    (r : Option String × Dbus)
    → Device N ours s device props
    → (rest s ≡ (ok r, u) → (s ≡ u) × Looked N s d devices r)
    → found_device ours device props d rest s ≡ (ok r, u)
    → (s ≡ u) × Looked N s d (device ∷ devices) r
unfolding found_device
found_device-Looked N s u true device devices d props rest r c ih h =
    let (same, e) = pure-ok _ r s u h in
    (e, subst (λ z. Looked N s d (device ∷ devices) z) same (first [] devices device props tt c))
found_device-Looked N s u false device devices d props rest r c ih h =
    let (e, more) = ih h in (e, Looked-cons (props, c) more)

devices_loop-Looked :
    (N : NetworkManager) (devices : List String) (d : Dbus) (r : Option String × Dbus)
    (s u : N.State)
    → devices_loop N devices d s ≡ (ok r, u)
    → (s ≡ u) × Looked N s d devices r
unfolding devices_loop
devices_loop-Looked N [] d r s u h =
    let (same, e) = pure-ok (none, d) r s u h in
    (e, subst (λ z. Looked N s d [] z) same (absent tt))
devices_loop-Looked N (device ∷ devices) d r s u h =
    let (props, e₁, h₁) = lift-ok (N.get_all device s) s _ r u h in
    found_device-Looked N s u (text_eq props.interface "wwan0") device devices d props
      (devices_loop N devices d) r (record { read = e₁; test = refl })
      (devices_loop-Looked N devices d r s u) h₁

pub get_device_prop_iface-Looked :
    (N : NetworkManager) (d : Dbus) (r : Option String × Dbus) (s u : N.State)
    → get_device_prop_iface N d s ≡ (ok r, u)
    → (devices : List String) × (N.get_devices s ≡ ok devices) × (s ≡ u) × Looked N s d devices r
unfolding get_device_prop_iface
get_device_prop_iface-Looked N d r s u h =
    let (devices, e, h₁) = lift-ok (N.get_devices s) s _ r u h in
    let (same, found) = devices_loop-Looked N devices d r s u h₁ in (devices, e, same, found)
