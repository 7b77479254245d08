-- ===== src/Base/Assoc.antt =====
-- `std::collections::HashMap` with number keys, as an association list. Its iteration order is never
-- used by the program.
use Prim.Native.Nat.{ℕ}
use mathlib.Core.Path.{◌≡◌, refl}
use mathlib.Core.List.{List, [], ◌∷◌}
use mathlib.Core.Option.{Option, none, some}
use native.Mathlib.Omega.{arith}
use jolt_ncp.Base.Tests.{◌==◌, if◌then◌else◌}

module _ {ℓ} {Value : Type ℓ} where
  -- `get`
  unfoldable pub lookup : ℕ → List (ℕ × Value) → Option Value
  lookup wanted [] = none
  lookup wanted ((key, value) ∷ table) = if key == wanted then some value else lookup wanted table

  -- `insert`: a new value replaces the old one.
  unfoldable pub insert : ℕ → Value → List (ℕ × Value) → List (ℕ × Value)
  insert added value [] = (added, value) ∷ []
  insert added value ((key, old) ∷ table) =
      if key == added then (added, value) ∷ table else (key, old) ∷ insert added value table

  -- what `remove` leaves
  unfoldable pub without : ℕ → List (ℕ × Value) → List (ℕ × Value)
  without gone [] = []
  without gone ((key, value) ∷ table) =
      let rest = without gone table in if key == gone then rest else (key, value) ∷ rest

  pub lookup-insert :
      (added wanted : ℕ) (value : Value) (table : List (ℕ × Value))
      → lookup wanted (insert added value table)
        ≡ (if added == wanted then some value else lookup wanted table)
  unfolding insert lookup
  lookup-insert added wanted value [] = refl
  lookup-insert added wanted value ((key, old) ∷ table) =
      ground (lookup-insert added wanted value table, arith)

  pub lookup-without :
      (gone wanted : ℕ) (table : List (ℕ × Value))
      → lookup wanted (without gone table) ≡ (if gone == wanted then none else lookup wanted table)
  unfolding without lookup
  lookup-without gone wanted [] = ground arith
  lookup-without gone wanted ((key, value) ∷ table) =
      ground (lookup-without gone wanted table, arith)
