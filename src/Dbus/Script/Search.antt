-- ===== src/Dbus/Script/Search.antt =====
-- About the script's search for the connection, and the class's.
use mathlib.Core.Path.{subst}
use xmm7360_mvp.Prelude.{
  ◌≡◌, refl, sym, String, Bool, true, false, none, some, List, [], ◌∷◌, codes, lookup_name,
}
use xmm7360_mvp.Result.{ok, key, from_option-ok}
use xmm7360_mvp.Result.Action.Laws.{lift-ok, bind-ok, pure-ok, bind_run, lift_run}
use xmm7360_mvp.Dbus.Assoc.{get}
use xmm7360_mvp.Dbus.{
  Value, Section, NetworkManager, Dbus, is_text, remember, visit, connections_loop, get_connections,
  new_dbus,
}
use xmm7360_mvp.Dbus.Script.{Globals, no_globals, pick, see, see_all, find_connections}

-- The script's variables and the object know the same connection, by its path and its identifier.
pub data Same (g : Globals) (d : Dbus) : Type 0 where
  neither :
      g.myconnection ≡ none
      → g.connection_path ≡ none
      → d.xmm_connection ≡ none
      → d.connection_path ≡ none
      → Same g d
  both :
      (section : Section) (uuid : Value) (path : String)
      → lookup_name "uuid" section ≡ some uuid
      → g.myconnection ≡ some uuid
      → g.connection_path ≡ some path
      → d.xmm_connection ≡ some section
      → d.connection_path ≡ some path
      → Same g d

remember-Same :
    (N : NetworkManager) (s : N.State) (ours : Bool) (path : String) (section : Section)
    (uuid kind : Value) (g : Globals) (d : Dbus)
    → get "uuid" section ≡ ok uuid
    → get "type" section ≡ ok kind
    → Same g d
    → (d' : Dbus) × (remember N ours path section d s ≡ (ok d', s))
      × Same (pick ours path uuid g) d'
unfolding remember
remember-Same N s true path section uuid kind g d e₁ e₂ same = (
  record d { xmm_connection = some section; connection_path = some path },
  rw (e₁, e₂) refl,
  both section uuid path (from_option-ok (lookup_name "uuid" section) key e₁) refl refl refl refl,
)
remember-Same N s false path section uuid kind g d e₁ e₂ same = (d, refl, same)

visit-Same :
    (N : NetworkManager) (s u : N.State) (path : String) (g g' : Globals) (d : Dbus)
    → see N path g s ≡ (ok g', u)
    → Same g d
    → (s ≡ u) × (d' : Dbus) × (visit N path d s ≡ (ok d', s)) × Same g' d'
unfolding see visit
visit-Same N s u path g g' d h same =
    let (config, e₁, h₁) = lift-ok (N.get_settings path s) s _ g' u h in
    let (section, e₂, h₂) = lift-ok (get "connection" config) s _ g' u h₁ in
    let (id, e₃, h₃) = lift-ok (get "id" section) s _ g' u h₂ in
    let (uuid, e₄, h₄) = lift-ok (get "uuid" section) s _ g' u h₃ in
    let (kind, e₅, h₅) = lift-ok (get "type" section) s _ g' u h₄ in
    let (eq, e) = pure-ok (pick (is_text (codes "xmm7360") id) path uuid g) g' s u h₅ in
    let (d', found, same') =
      remember-Same N s (is_text (codes "xmm7360") id) path section uuid kind g d e₄ e₅ same in
    (e, d', lift_run _ e₁ (lift_run _ e₂ (lift_run _ e₃ found)), subst (λ z. Same z d') eq same')

connections_loop-Same :
    (N : NetworkManager) (paths : List String) (s u : N.State) (g g' : Globals) (d : Dbus)
    → see_all N paths g s ≡ (ok g', u)
    → Same g d
    → (s ≡ u) × (d' : Dbus) × (connections_loop N paths d s ≡ (ok d', s)) × Same g' d'
unfolding see_all connections_loop
connections_loop-Same N [] s u g g' d h same =
    let (eq, e) = pure-ok g g' s u h in (e, d, refl, subst (λ z. Same z d) eq same)
connections_loop-Same N (path ∷ paths) s u g g' d h same =
    let (mid, t, e, h₁) = bind-ok (see N path g s) _ g' u h in
    let (at, d₁, found, same₁) = visit-Same N s t path g mid d e same in
    let (at', d₂, found', same₂) =
      connections_loop-Same N paths s u mid g' d₁
        (subst (λ z. see_all N paths mid z ≡ (ok g', u)) (sym at) h₁) same₁ in
    (at', d₂, bind_run _ found found', same₂)

pub find_connections-Same :
    (N : NetworkManager) (s u : N.State) (g g' : Globals) (d : Dbus)
    → find_connections N g s ≡ (ok g', u)
    → Same g d
    → (s ≡ u) × (d' : Dbus) × (get_connections N d s ≡ (ok d', s)) × Same g' d'
unfolding find_connections get_connections
find_connections-Same N s u g g' d h same =
    let (paths, e, h₁) = lift-ok (N.list_connections s) s _ g' u h in
    let (at, d', found, same') = connections_loop-Same N paths s u g g' d h₁ same in
    (at, d', lift_run _ e found, same')

-- Where the script's search returns, the class's search on a new object returns as well, both leave
-- NetworkManager as it was, and they find the same connection or both find none.
pub get_connections-Same :
    (N : NetworkManager) (s u : N.State) (g : Globals)
    → find_connections N no_globals s ≡ (ok g, u)
    → (s ≡ u) × (d : Dbus) × (get_connections N new_dbus s ≡ (ok d, s)) × Same g d
get_connections-Same N s u g h =
    find_connections-Same N s u no_globals g new_dbus h (neither refl refl refl refl)
