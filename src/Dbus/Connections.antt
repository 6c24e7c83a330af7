-- ===== src/Dbus/Connections.antt =====
-- About looking for the connection `xmm7360`.
use mathlib.Core.Path.{subst}
use xmm7360_mvp.Prelude.{
  ◌≡◌, refl, sym, ◌∙◌, String, Bool, true, false, some, List, [], ◌∷◌, ◌++◌, codes, lookup_name,
  All,
}
use xmm7360_mvp.Result.{ok, from_option-ok, key}
use xmm7360_mvp.Result.Action.Laws.{lift-ok, bind-ok, pure-ok}
use xmm7360_mvp.Dbus.Assoc.{get}
use xmm7360_mvp.Dbus.{
  Value, Section, Settings, NetworkManager, Dbus, is_text, remember, visit, connections_loop,
  get_connections,
}

-- The connection at the path has this section, and this value of its name is the program's, or is not.
pub record Named (N : NetworkManager) (ours : Bool) (s : N.State) (path : String) : Type 0 where
  pub config : Settings
  pub section : Section
  pub id : Value
  pub read : N.get_settings path s ≡ ok config
  pub found : lookup_name "connection" config ≡ some section
  pub named : lookup_name "id" section ≡ some id
  pub test : is_text (codes "xmm7360") id ≡ ours

-- What the search makes of the object: without a connection of the program's nothing, otherwise the
-- path and the section of the last one.
pub data Searched (N : NetworkManager) (s : N.State) (d : Dbus) : List String → Dbus → Type 0 where
  absent : {paths : List String} → All (Named N false s) paths → Searched N s d paths d
  last :
      (before after : List String) (path : String) (c : Named N true s path)
      → All (Named N false s) after
      → Searched N s d
          (before ++ (path ∷ after))
          (record d { xmm_connection = some c.section; connection_path = some path })

Searched-cons :
    {N : NetworkManager} {s : N.State} {d d' : Dbus} {path : String} {paths : List String}
    → Named N false s path
    → Searched N s d paths d'
    → Searched N s d (path ∷ paths) d'
Searched-cons {path} c (absent cs) = absent (c, cs)
Searched-cons {path} c (last before after p k cs) = last (path ∷ before) after p k cs

Searched-found :
    {N : NetworkManager} {s : N.State} {d d' : Dbus} {path : String} {paths : List String}
    (c : Named N true s path)
    → Searched N s
        (record d { xmm_connection = some c.section; connection_path = some path })
        paths
        d'
    → Searched N s d (path ∷ paths) d'
Searched-found {path} {paths} c (absent cs) = last [] paths path c cs
Searched-found {path} c (last before after p k cs) = last (path ∷ before) after p k cs

remember-Searched :
    (N : NetworkManager) (s u : N.State) (ours : Bool) (path : String) (d d' : Dbus)
    (c : Named N ours s path)
    → remember N ours path c.section d s ≡ (ok d', u)
    → (s ≡ u)
      × ((paths : List String) (e : Dbus)
          → Searched N s d' paths e
          → Searched N s d (path ∷ paths) e)
unfolding remember
remember-Searched N s u true path d d' c h =
    let (_, _, h₁) = lift-ok (get "uuid" c.section) s _ d' u h in
    let (_, _, h₂) = lift-ok (get "type" c.section) s _ d' u h₁ in
    let (same, e) =
      pure-ok (record d { xmm_connection = some c.section; connection_path = some path }) d' s u
        h₂ in
    (e, λ paths f more. Searched-found c (subst (λ z. Searched N s z paths f) (sym same) more))
remember-Searched N s u false path d d' c h =
    let (same, e) = pure-ok d d' s u h in
    (e, λ paths f more. Searched-cons c (subst (λ z. Searched N s z paths f) (sym same) more))

visit-Searched :
    (N : NetworkManager) (s u : N.State) (path : String) (d d' : Dbus)
    → visit N path d s ≡ (ok d', u)
    → (s ≡ u)
      × ((paths : List String) (e : Dbus)
          → Searched N s d' paths e
          → Searched N s d (path ∷ paths) e)
unfolding visit
visit-Searched N s u path d d' h =
    let (config, e₁, h₁) = lift-ok (N.get_settings path s) s _ d' u h in
    let (section, e₂, h₂) = lift-ok (get "connection" config) s _ d' u h₁ in
    let (id, e₃, h₃) = lift-ok (get "id" section) s _ d' u h₂ in
    remember-Searched N s u (is_text (codes "xmm7360") id) path d d'
      (record {
        config = config;
        section = section;
        id = id;
        read = e₁;
        found = from_option-ok (lookup_name "connection" config) key e₂;
        named = from_option-ok (lookup_name "id" section) key e₃;
        test = refl;
      })
      h₃

connections_loop-Searched :
    (N : NetworkManager) (paths : List String) (d d' : Dbus) (s u : N.State)
    → connections_loop N paths d s ≡ (ok d', u)
    → (s ≡ u) × Searched N s d paths d'
unfolding connections_loop
connections_loop-Searched N [] d d' s u h =
    let (same, e) = pure-ok d d' s u h in (e, subst (λ z. Searched N s d [] z) same (absent tt))
connections_loop-Searched N (path ∷ paths) d d' s u h =
    let (mid, t, e₁, h₁) = bind-ok (visit N path d s) _ d' u h in
    let (same, more) = visit-Searched N s t path d mid e₁ in
    let (same', rest) = connections_loop-Searched N paths mid d' t u h₁ in
    (same ∙ same', more paths d' (subst (λ z. Searched N z mid paths d') (sym same) rest))

-- Where the search returns, NetworkManager is as it was, and the object has the path and the section
-- of the last listed connection that is named `xmm7360`, or what it had if there is none.
pub get_connections-Searched :
    (N : NetworkManager) (d d' : Dbus) (s u : N.State)
    → get_connections N d s ≡ (ok d', u)
    → (paths : List String) × (N.list_connections s ≡ ok paths) × (s ≡ u) × Searched N s d paths d'
unfolding get_connections
get_connections-Searched N d d' s u h =
    let (paths, e, h₁) = lift-ok (N.list_connections s) s _ d' u h in
    let (same, found) = connections_loop-Searched N paths d d' s u h₁ in (paths, e, same, found)
