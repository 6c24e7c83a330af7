-- ===== src/Prelude/Text.antt =====
-- Texts of the source as lists of code points, and tables keyed by numbers or texts.
use Prim.Native.Nat.{ℕ}
use Prim.Native.Char.{code}
use Prim.Native.String.{String}
use mathlib.Core.Bool.{Bool}
use mathlib.Core.List.{List, [], ◌∷◌}
use mathlib.Core.Option.{Option, none, some}
use text.Mathlib.Text.{◌==◌ as str_eq}
use xmm7360_mvp.Prelude.Tests.{◌==◌, if◌then◌else◌}

abbrev pub codes : String → List ℕ
codes String.[] = []
codes (String.◌∷◌ c s) = code c ∷ codes s

abbrev pub text_eq : String → String → Bool
text_eq a b = str_eq a b

-- `table[name]` of a dictionary literal.
unfoldable pub lookup_name {ℓ} : {V : Type ℓ} → String → List (String × V) → Option V
lookup_name name [] = none
lookup_name name ((k, v) ∷ table) =
    let rest = lookup_name name table in if text_eq k name then some v else rest

unfoldable pub lookup_code {ℓ} : {V : Type ℓ} → ℕ → List (ℕ × V) → Option V
lookup_code n [] = none
lookup_code n ((k, v) ∷ table) = let rest = lookup_code n table in if k == n then some v else rest
