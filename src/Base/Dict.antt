-- ===== src/Base/Dict.antt =====
-- Go's map[string]V: an association list with its laws in `if` form. The order of a Go map is
-- unspecified; the code that ranges over one is modelled in the order of the list.

use Prim.Native.String.{String}
use mathlib.Core.Path.{◌≡◌, refl}
use mathlib.Core.Option.{Option, none, some}
use mathlib.Core.List.{List, [], ◌∷◌}
use native.Mathlib.Omega.{arith}
use text.Mathlib.Text.{◌==◌}
use text.Mathlib.TextEquality.{eq_iff}
use text.Mathlib.TextPositions.{eq_refl}
use kratos_kit.Base.Tests.{if◌then◌else◌}

abbrev pub Dict {ℓ} : Type ℓ → Type ℓ
Dict V = List (String × V)

module _ {ℓ} {V : Type ℓ} where
  -- m[k]
  unfoldable pub lookup : String → Dict V → Option V
  lookup k [] = none
  lookup k ((j, v) ∷ l) = if j == k then some v else lookup k l

  -- delete(m, k)
  unfoldable pub erase : String → Dict V → Dict V
  erase k [] = []
  erase k ((j, v) ∷ l) = let rest = erase k l in if j == k then rest else (j, v) ∷ rest

  -- m[k] = v
  unfoldable pub insert : String → V → Dict V → Dict V
  insert k v l = (k, v) ∷ erase k l

  pub lookup-erase :
      (k j : String) (l : Dict V) → lookup j (erase k l) ≡ (if k == j then none else lookup j l)
  unfolding lookup erase
  lookup-erase k j [] = ground arith
  lookup-erase k j ((i, v) ∷ l) =
      ground (arith, lookup-erase k j l, eq_iff i k, eq_iff i j, eq_iff k j)

  pub lookup-insert :
      (k j : String) (v : V) (l : Dict V)
      → lookup j (insert k v l) ≡ (if k == j then some v else lookup j l)
  unfolding lookup insert
  lookup-insert k j v l = ground (arith, lookup-erase k j l)

pub lookup-nil {ℓ} : {V : Type ℓ} (k : String) → lookup {V = V} k [] ≡ none
unfolding lookup
lookup-nil k = refl

pub ruleset dict_laws = (lookup-nil, lookup-erase, lookup-insert)

module _ {ℓ} {V : Type ℓ} where
  -- No key stands twice: what makes an association list a map.
  abbrev pub Distinct : Dict V → Type ℓ
  Distinct [] = Unit
  Distinct ((k, v) ∷ l) = (lookup k l ≡ none) × Distinct l

  pub erase-Distinct : (k : String) (l : Dict V) → Distinct l → Distinct (erase k l)
  unfolding erase
  erase-Distinct k [] d = d
  erase-Distinct k ((j, v) ∷ l) (fresh, d) =
      let rest = erase-Distinct k l d in ground (arith, lookup-erase k j l)

  pub insert-Distinct : (k : String) (v : V) (l : Dict V) → Distinct l → Distinct (insert k v l)
  unfolding insert
  insert-Distinct k v l d = (rw (lookup-erase k k l) (rw (eq_refl k)), erase-Distinct k l d)
