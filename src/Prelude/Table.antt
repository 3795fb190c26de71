-- ===== src/Prelude/Table.antt =====
-- A database collection: documents under their `_id`. An update replaces the first document that
-- has the id and keeps the order; a missing id is left missing.
use Prim.Native.Nat.{ℕ}
use mathlib.Core.Path.{◌≡◌, refl}
use mathlib.Core.Logic.{◌≢◌, inl, inr}
use mathlib.Core.Option.{Option, none, some}
use mathlib.Core.List.{List, [], ◌∷◌}
use native.Mathlib.Omega.{arith}
use kanz_coins_backend.Prelude.Tests.{◌==◌, if◌then◌else◌, Bool-cases}

abbrev pub Table {ℓ} : Type ℓ → Type ℓ
Table V = List (ℕ × V)

module _ {ℓ} {V : Type ℓ} where
  -- `Model.findById(id)`
  unfoldable pub find : ℕ → Table V → Option V
  find k [] = none
  find k ((j, v) ∷ t) = if k == j then some v else find k t

  -- `Model.updateOne({ _id: id }, …)` with the update as a function on the document
  unfoldable pub modify : ℕ → (V → V) → Table V → Table V
  modify k f [] = []
  modify k f ((j, v) ∷ t) = if k == j then (j, f v) ∷ t else (j, v) ∷ modify k f t

  -- A read after an update, at every id.
  pub find-modify :
      (j k : ℕ) (f : V → V) (t : Table V)
      → find j (modify k f t)
        ≡ (if j == k then elim (find j t) [ none ↦ none | some v ↦ some (f v) ] else find j t)
  unfolding find modify
  find-modify j k f [] = ground arith
  find-modify j k f ((i, v) ∷ t) = ground (arith, find-modify j k f t)

  pub find-modify_self :
      (k : ℕ) (f : V → V) (t : Table V) {v : V}
      → find k t ≡ some v
      → find k (modify k f t) ≡ some (f v)
  find-modify_self k f t h = ground (arith, find-modify k k f t)

  pub find-modify_ne :
      (j k : ℕ) (f : V → V) (t : Table V) → j ≢ k → find j (modify k f t) ≡ find j t
  find-modify_ne j k f t h = ground (arith, find-modify j k f t)

  pub find-modify-none :
      (k : ℕ) (f : V → V) (t : Table V) → find k t ≡ none → find k (modify k f t) ≡ none
  find-modify-none k f t h = ground (arith, find-modify k k f t)

  pub modify-modify :
      (k : ℕ) (f g : V → V) (t : Table V) → modify k f (modify k g t) ≡ modify k (λ v. f (g v)) t
  unfolding modify
  modify-modify k f g [] = refl
  modify-modify k f g ((j, v) ∷ t) = elim (Bool-cases (k == j)) [
    | inl same ↦ rw (same, same)
    | inr other ↦ rw (other, other, modify-modify k f g t)
  ]
