-- ===== src/Prelude/TextDict.antt =====
-- Python's `dict` with text keys, in insertion order.
use mathlib.Core.Path.{◌≡◌, refl}
use mathlib.Core.Bool.{false}
use mathlib.Core.Option.{Option, none, some}
use mathlib.Core.List.{List, [], ◌∷◌}
use native.Mathlib.Omega.{arith}
use Prim.Native.String.{String}
use text.Mathlib.Text.{◌==◌ as str_eq}
use text.Mathlib.TextEquality.{eq_iff}
use text.Mathlib.TextPositions.{eq_refl}
use ai_document_ops_system.Prelude.Tests.{if◌then◌else◌}

-- `d.get(k)`, `d[k] = v` and `d.pop(k, None)` on a dictionary with text keys.
module _ {V : Type 0} where
  unfoldable pub lookup : String → List (String × V) → Option V
  lookup k [] = none
  lookup k ((j, v) ∷ d) = if str_eq j k then some v else lookup k d

  unfoldable pub insert : String → V → List (String × V) → List (String × V)
  insert k v [] = (k, v) ∷ []
  insert k v ((j, u) ∷ d) = if str_eq j k then (j, v) ∷ d else (j, u) ∷ insert k v d

  unfoldable pub remove : String → List (String × V) → List (String × V)
  remove k [] = []
  remove k ((j, v) ∷ d) = let rest = remove k d in if str_eq j k then rest else (j, v) ∷ rest

module _ {V : Type 0} (k : String) where
  pub lookup-insert : (v : V) (d : List (String × V)) → lookup k (insert k v d) ≡ some v
  unfolding lookup insert
  lookup-insert v [] = ground (arith, eq_refl k)
  lookup-insert v ((j, u) ∷ d) = ground (arith, lookup-insert v d)

  pub lookup-remove : (d : List (String × V)) → lookup k (remove k d) ≡ none
  unfolding lookup remove
  lookup-remove [] = refl
  lookup-remove ((j, u) ∷ d) = ground (arith, lookup-remove d)

-- An entry under another key is left alone.
pub lookup-insert_ne :
    {V : Type 0} (k j : String) (v : V) (d : List (String × V))
    → str_eq k j ≡ false
    → lookup j (insert k v d) ≡ lookup j d
unfolding lookup insert
lookup-insert_ne k j v [] h = ground (arith, h)
lookup-insert_ne k j v ((i, u) ∷ d) h =
    ground (arith, lookup-insert_ne k j v d h, eq_iff i k, eq_iff i j, eq_iff k j)
