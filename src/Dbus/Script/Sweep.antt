-- ===== src/Dbus/Script/Sweep.antt =====
-- About the script's loop over the devices, and the class's.
use mathlib.Core.Path.{subst}
use xmm7360_mvp.Prelude.{
  ◌≡◌, ◌≢◌, refl, ap, sym, ◌∙◌, String, Bool, true, false, ◌==◌, Bool-cases, Option, none, some,
  List, [], ◌∷◌, All, text_eq, inl, inr, ◌⊎◌,
}
use xmm7360_mvp.Result.{ok}
use xmm7360_mvp.Result.Action.Laws.{lift-ok, bind-ok, pure-ok, change-ok, lift_run}
use xmm7360_mvp.Dbus.{Props, NetworkManager, Dbus, found_device, devices_loop, manage, manage_if}
use xmm7360_mvp.Dbus.Devices.{Device}
use xmm7360_mvp.Dbus.Lawful.{Distinct, IsLawful}
use xmm7360_mvp.Dbus.Script.{set_managed_if, take_device, sweep}

module _ (N : NetworkManager) where
  -- A device of another interface is passed over.
  abbrev Passed : N.State → String → Type 0
  Passed s e = (props : Props) → Device N true s e props → ⊥

  take_device-Passed :
      (b : Bool) (e : String) (props : Props) (dev dev' : Option String) (s u : N.State)
      → b ≡ false
      → take_device N b e props dev s ≡ (ok dev', u)
      → (dev ≡ dev') × (s ≡ u)
  unfolding take_device
  take_device-Passed true e props dev dev' s u h k = cc
  take_device-Passed false e props dev dev' s u h k = pure-ok dev dev' s u k

  sweep-Passed :
      (es : List String) (dev dev' : Option String) (s u : N.State)
      → All (Passed s) es
      → sweep N es dev s ≡ (ok dev', u)
      → (dev ≡ dev') × (s ≡ u)
  unfolding sweep
  sweep-Passed [] dev dev' s u ps h = pure-ok dev dev' s u h
  sweep-Passed (e ∷ es) dev dev' s u (p, ps) h =
      let (props, e₁, h₁) = lift-ok (N.get_all e s) s _ dev' u h in
      let (mid, t, e₂, h₂) =
        bind-ok (take_device N (text_eq props.interface "wwan0") e props dev s) _ dev' u h₁ in
      let (same, at) =
        take_device-Passed (text_eq props.interface "wwan0") e props dev mid s t
          (not_ours props e₁ (Bool-cases (text_eq props.interface "wwan0"))) e₂ in
      let (same', at') =
        sweep-Passed es mid dev' s u ps
          (subst (λ z. sweep N es mid z ≡ (ok dev', u)) (sym at) h₂) in
      (same ∙ same', at')
    where
      not_ours :
          (props : Props)
          → N.get_all e s ≡ ok props
          → (text_eq props.interface "wwan0" ≡ true) ⊎ (text_eq props.interface "wwan0" ≡ false)
          → text_eq props.interface "wwan0" ≡ false
      not_ours props e₁ (inl ours) = absurd (p props (record { read = e₁; test = ours }))
      not_ours props e₁ (inr other) = other

  set_managed_if-manage_if :
      (b : Bool) (d : String) (s : N.State) → set_managed_if N b d s ≡ manage_if N b (some d) s
  unfolding set_managed_if manage_if manage
  set_managed_if-manage_if true d s = refl
  set_managed_if-manage_if false d s = refl

  set_managed_if_others :
      IsLawful N
      → (b : Bool) (d : String) (s t : N.State) (e : String) → set_managed_if N b d s ≡ (ok tt, t)
      → e ≢ d
      → N.get_all e t ≡ N.get_all e s
  unfolding set_managed_if
  set_managed_if_others lawful true d s t e h ne =
      lawful.manage_others d 1 s t e (change-ok (N.set_managed d 1) s t h) ne
  set_managed_if_others lawful false d s t e h ne = ap (N.get_all e) (sym ((pure-ok tt tt s t h).1))

  -- The class's loop finds the same device, and managing it leaves the same state.
  abbrev pub Met : List String → N.State → Option String → Dbus → N.State → Type 0
  Met devices s dev d u =
      (device : String) × (props : Props) × (dev ≡ some device)
      × (devices_loop N devices d s ≡ (
        ok (some device, record d { device_path = some device; device_props = some props }),
        s,
      ))
      × (manage_if N (props.managed == 0) (some device) s ≡ (ok tt, u))

  module _ (lawful : IsLawful N) (s : N.State)
      (interfaces : (d e : String) (x y : Props)
        → Device N true s d x
        → Device N true s e y
        → e ≡ d) where
    All-Passed :
        (d : String) (x : Props) (t : N.State) (es : List String)
        → Device N true s d x
        → ((e : String) → e ≢ d → N.get_all e t ≡ N.get_all e s)
        → All (λ e. e ≢ d) es
        → All (Passed t) es
    All-Passed d x t [] c kept nes = tt
    All-Passed d x t (e ∷ es) c kept (ne, nes) = (
      (λ y has.
          ne
            (interfaces d e x y c (record { read = sym (kept e ne) ∙ has.read; test = has.test }))),
      All-Passed d x t es c kept nes,
    )

    take_device-Met :
        (b : Bool) (e : String) (props : Props) (es : List String) (mid dev : Option String)
        (d : Dbus) (t u : N.State)
        → text_eq props.interface "wwan0" ≡ b
        → N.get_all e s ≡ ok props
        → Distinct (e ∷ es)
        → take_device N b e props none s ≡ (ok mid, t)
        → sweep N es mid t ≡ (ok dev, u)
        → (sweep N es none s ≡ (ok dev, u) → (dev ≡ none) ⊎ Met es s dev d u)
        → (dev ≡ none) ⊎ Met (e ∷ es) s dev d u
    unfolding take_device devices_loop found_device
    take_device-Met true e props es mid dev d t u test read (apart, _) h k ih =
        let (_, v, e₁, h₁) = bind-ok (set_managed_if N (props.managed == 0) e s) _ mid t h in
        let (same, at) = pure-ok (some e) mid v t h₁ in
        let (same', at') =
          sweep-Passed es mid dev t u
            (subst (λ z. All (Passed z) es) at
              (All-Passed e props v es (record { read = read; test = test })
                (λ q. set_managed_if_others lawful (props.managed == 0) e s v q e₁) apart))
            k in
        inr (
          e,
          props,
          sym (same ∙ same'),
          lift_run _ read (rw test refl),
          sym (set_managed_if-manage_if (props.managed == 0) e s)
              ∙ e₁
              ∙ ap (λ (z : N.State). (ok tt, z)) (at ∙ at'),
        )
    take_device-Met false e props es mid dev d t u test read distinct h k ih =
        let (same, at) = pure-ok none mid s t h in
        elim (ih (
          subst (λ z. sweep N es none z ≡ (ok dev, u)) (sym at)
            (subst (λ z. sweep N es z t ≡ (ok dev, u)) (sym same) k))) [
              | inl missing ↦ inl missing
              | inr (device, x, found, loop, managed) ↦
                  inr (device, x, found, lift_run _ read (rw test loop), managed)
            ]

    pub sweep-Met :
        (devices : List String) (dev : Option String) (d : Dbus) (u : N.State)
        → Distinct devices
        → sweep N devices none s ≡ (ok dev, u)
        → (dev ≡ none) ⊎ Met devices s dev d u
    unfolding sweep
    sweep-Met [] dev d u distinct h = inl (sym ((pure-ok none dev s u h).0))
    sweep-Met (e ∷ es) dev d u (apart, distinct) h =
        let (props, e₁, h₁) = lift-ok (N.get_all e s) s _ dev u h in
        let (mid, t, e₂, h₂) =
          bind-ok (take_device N (text_eq props.interface "wwan0") e props none s) _ dev u h₁ in
        take_device-Met (text_eq props.interface "wwan0") e props es mid dev d t u refl e₁
          (apart, distinct) e₂ h₂ (sweep-Met es dev d u distinct)
