-- ===== src/Tests/Lawful.antt =====
-- About the NetworkManager in memory, and the theorem that relies on its laws.
use mathlib.Core.Path.{subst}
use text.Mathlib.TextEquality.{eq_iff}
use xmm7360_mvp.Prelude.{
  ℕ, ◌≡◌, ◌≢◌, refl, ap, sym, ◌∙◌, arith, String, Bool, true, false, Bool-cases, Option, some, none,
  [], ◌∷◌, map, codes, lookup_name, text_eq, inl, inr, ◌⊎◌,
}
use xmm7360_mvp.Result.{Result, ok, err, from_option, io}
use xmm7360_mvp.Bytes.{same_bytes}
use xmm7360_mvp.Dbus.Assoc.{Dict, insert, lookup-insert}
use xmm7360_mvp.Dbus.{Value, is_text, Settings, Props, new_dbus, setup_network_manager}
use xmm7360_mvp.Dbus.Lawful.{UuidOf, Distinct, IsLawful, IsUnique}
use xmm7360_mvp.Dbus.Script.Together.{setup_network_manager-network_manager}
use xmm7360_mvp.Tests.Dbus.{
  Memory, memory, stored, device_of, updated, managed, known, ours, theirs, set_up, servers,
}
use xmm7360_mvp.Tests.Script.{script_set_up}

updated_lem :
    (r : Result Settings) (path : String) (config : Settings) (m t : Memory)
    → updated r path config m ≡ ok t
    → record m { connections = insert path config m.connections } ≡ t
updated_lem (ok c) path config m t h = cc h
updated_lem (err e) path config m t h = cc

managed_lem :
    (r : Result Props) (device : String) (n : ℕ) (m t : Memory)
    → managed r device n m ≡ ok t
    → (x : Props) × (record m { devices = insert device x m.devices } ≡ t)
managed_lem (ok props) device n m t h = (record props { managed = n }, cc h)
managed_lem (err e) device n m t h = cc

lookup-insert_other {ℓ} :
    {V : Type ℓ} (j k : String) (v : V) (d : Dict V)
    → j ≢ k
    → lookup_name j (insert k v d) ≡ lookup_name j d
lookup-insert_other j k v d ne = lookup-insert j k v d ∙ rw (apart j k ne) refl
  where
    apart : (j k : String) → j ≢ k → text_eq k j ≡ false
    apart j k ne = ground (arith, eq_iff k j)

devices_in : Memory → Result Memory → Dict Props
devices_in s (ok t) = t.devices
devices_in s (err e) = s.devices

same_devices :
    (s t : Memory)
    → s.devices ≡ t.devices
    → (memory.get_devices t ≡ memory.get_devices s)
      × ((e : String) → memory.get_all e t ≡ memory.get_all e s)
same_devices s t same = (
  ap (λ (d : Dict Props). ok (map (λ (p : String × Props). p.0) d)) (sym same),
  λ e. ap (λ (d : Dict Props). from_option (lookup_name e d) io) (sym same),
)

memory-IsLawful : IsLawful memory
unfolding devices_in
memory-IsLawful = record {
  update_others = λ path config s t q h ne.
      let e = updated_lem (stored path s) path config s t h in
      ap (stored q) (sym e)
      ∙ ap (λ o. from_option o io) (lookup-insert_other q path config s.connections ne);
  update_devices = λ path config s t h.
      same_devices s t
        (ap (λ (m : Memory). m.devices) (updated_lem (stored path s) path config s t h));
  add_devices = λ config s t h. same_devices s t (ap (λ (r : Result Memory). devices_in s r) h);
  manage_others = λ device n s t e h ne.
      let (x, f) = managed_lem (device_of device s) device n s t h in
      ap (device_of e) (sym f)
      ∙ ap (λ o. from_option o io) (lookup-insert_other e device x s.devices ne);
}

stored-known :
    (p : String) (c : Settings)
    → stored p known ≡ ok c
    → ((p ≡ "/1") × (c ≡ theirs)) ⊎ ((p ≡ "/2") × (c ≡ ours))
unfolding lookup_name
stored-known p c h = elim (Bool-cases (text_eq "/1" p)) [
  | inl first ↦ inl (sym ((eq_iff "/1" p).0 first), cc (rw first at h))
  | inr other ↦ elim (Bool-cases (text_eq "/2" p)) [
    | inl second ↦ inr (sym ((eq_iff "/2" p).0 second), cc (rw (other, second) at h))
    | inr missing ↦ cc (rw (other, missing) at h)
  ]
]

uuid_in : Settings → Option Value
uuid_in config = elim (lookup_name "connection" config) [
  | none ↦ none
  | some section ↦ lookup_name "uuid" section
]

uuid_in_lem :
    (s : Memory) (p : String) (a : Value) (has : UuidOf memory s p a) → uuid_in has.config ≡ some a
unfolding uuid_in
uuid_in_lem s p a has = rw (has.found, uuid_in) has.named

uuid_known :
    (p : String) (a : Value)
    → UuidOf memory known p a
    → ((p ≡ "/1") × (a ≡ Value.text (codes "h"))) ⊎ ((p ≡ "/2") × (a ≡ Value.text (codes "u")))
unfolding uuid_in lookup_name
uuid_known p a has = elim (stored-known p has.config has.read) [
  | inl (at, e) ↦
      (let f : uuid_in theirs ≡ some a = ap uuid_in (sym e) ∙ uuid_in_lem known p a has in
        inl (at, cc f))
  | inr (at, e) ↦
      (let f : uuid_in ours ≡ some a = ap uuid_in (sym e) ∙ uuid_in_lem known p a has in
        inr (at, cc f))
]

apart : Value.text (codes "h") ≢ Value.text (codes "u")
unfolding same_bytes
apart e = cc (ap (is_text (codes "h")) e)

uuids_known : (p q : String) (a : Value) → UuidOf memory known p a → UuidOf memory known q a → q ≡ p
uuids_known p q a c d = elim (uuid_known p a c) [
  | inl (at, e) ↦ elim (uuid_known q a d) [
    | inl (at', f) ↦ at' ∙ sym at
    | inr (at', f) ↦ absurd (apart (sym e ∙ f))
  ]
  | inr (at, e) ↦ elim (uuid_known q a d) [
    | inl (at', f) ↦ absurd (apart (sym f ∙ e))
    | inr (at', f) ↦ at' ∙ sym at
  ]
]

device_known :
    (d : String) (x : Props)
    → device_of d known ≡ ok x
    → text_eq x.interface "wwan0" ≡ true
    → d ≡ "/wwan"
unfolding lookup_name
device_known d x h ours = elim (Bool-cases (text_eq "/lo" d)) [
  | inl first ↦ cc (sym ours ∙ ap (λ (r : Result Props). interface_is r) (sym (rw first at h)))
  | inr other ↦ elim (Bool-cases (text_eq "/wwan" d)) [
    | inl second ↦ sym ((eq_iff "/wwan" d).0 second)
    | inr missing ↦ cc (rw (other, missing) at h)
  ]
]
  where
    interface_is : Result Props → Bool
    interface_is (ok y) = text_eq y.interface "wwan0"
    interface_is (err e) = false

known-IsUnique : IsUnique memory known
known-IsUnique = record {
  connections_once = λ paths h.
      (let same : "/1" ∷ "/2" ∷ [] ≡ paths = cc h in
        subst Distinct same (((λ e. cc ((eq_iff "/2" "/1").1 e)), tt), (tt, tt)));
  devices_once = λ devices h.
      (let same : "/lo" ∷ "/wwan" ∷ [] ≡ devices = cc h in
        subst Distinct same (((λ e. cc ((eq_iff "/wwan" "/lo").1 e)), tt), (tt, tt)));
  uuids = uuids_known;
  interfaces = λ d e x y c k. device_known e y k.read k.test ∙ sym (device_known d x c.read c.test);
}

setup_network_manager-network_manager_example :
    setup_network_manager memory (codes "u") 0x0a141e28 servers new_dbus known ≡ (ok tt, set_up)
setup_network_manager-network_manager_example =
    setup_network_manager-network_manager memory memory-IsLawful (codes "u") 0x0a141e28 servers
      known set_up known-IsUnique script_set_up
