-- ===== src/Dbus/Assoc.antt =====
-- Python's dictionaries with string keys, in the order of insertion.
use text.Mathlib.TextEquality.{eq_iff}
use xmm7360_mvp.Prelude.{
  ◌≡◌, refl, arith, String, none, some, List, [], ◌∷◌, text_eq, lookup_name, if◌then◌else◌,
}
use xmm7360_mvp.Result.{Result, from_option, key}

abbrev pub Dict {ℓ} : Type ℓ → Type ℓ
Dict V = List (String × V)

-- `d[k]`
abbrev pub get {ℓ} : {V : Type ℓ} → String → Dict V → Result V
get k d = from_option (lookup_name k d) key

module _ {ℓ} {V : Type ℓ} where
  -- `d[k] = v`
  unfoldable pub insert : String → V → Dict V → Dict V
  insert k v [] = (k, v) ∷ []
  insert k v ((j, w) ∷ d) = if text_eq j k then (j, v) ∷ d else (j, w) ∷ insert k v d

  -- `if k in d: del d[k]`
  unfoldable pub remove : String → Dict V → Dict V
  remove k [] = []
  remove k ((j, w) ∷ d) = let rest = remove k d in if text_eq j k then rest else (j, w) ∷ rest

  pub lookup-insert :
      (j k : String) (v : V) (d : Dict V)
      → lookup_name j (insert k v d) ≡ (if text_eq k j then some v else lookup_name j d)
  unfolding insert lookup_name
  lookup-insert j k v [] = refl
  lookup-insert j k v ((i, w) ∷ d) =
      ground (arith, eq_iff k j, eq_iff i k, eq_iff i j, lookup-insert j k v d)

  pub lookup-remove :
      (j k : String) (d : Dict V)
      → lookup_name j (remove k d) ≡ (if text_eq k j then none else lookup_name j d)
  unfolding remove lookup_name
  lookup-remove j k [] = ground arith
  lookup-remove j k ((i, w) ∷ d) =
      ground (arith, eq_iff k j, eq_iff i k, eq_iff i j, lookup-remove j k d)
