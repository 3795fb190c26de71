-- ===== src/Prelude/Query.antt =====
-- Updates and counts over the documents of a collection that a list of ids names:
-- `{ _id: { $in: ids }, … }`.
use Prim.Native.Nat.{ℕ, suc, ◌≤◌}
use mathlib.Core.Path.{◌≡◌, refl, subst, ◌∙◌}
use mathlib.Core.Logic.{inl, inr}
use mathlib.Core.Bool.{Bool, true, false, ◌&&◌, ◌||◌}
use mathlib.Core.Option.{Option, none, some}
use mathlib.Core.List.{List, [], ◌∷◌}
use native.Mathlib.Omega.{arith}
use kanz_coins_backend.Prelude.Tests.{◌==◌, if◌then◌else◌, Bool-cases, Option-cases, ==_refl}
use kanz_coins_backend.Prelude.Lists.{All, length}
use kanz_coins_backend.Prelude.Table.{Table, find, modify, find-modify}

-- `ids.includes(id)`
abbrev pub member : ℕ → List ℕ → Bool
member i [] = false
member i (j ∷ js) = i == j || member i js

-- No id stands twice.
abbrev pub Distinct : List ℕ → Type 0
Distinct [] = Unit
Distinct (i ∷ is) = (member i is ≡ false) × Distinct is

pub All-member {κ} : (P : ℕ → Type κ) (ids : List ℕ) (i : ℕ) → All P ids → member i ids ≡ true → P i
All-member P [] i h m = absurd (ground arith)
All-member P (j ∷ js) i h m = elim (Bool-cases (i == j)) [
  | inl same ↦ let e : j ≡ i = ground arith in subst P e h.0
  | inr other ↦ All-member P js i h.1 (ground arith)
]

pub All-map {κ ν} :
    (P : ℕ → Type κ) (Q : ℕ → Type ν) (ids : List ℕ)
    → ((i : ℕ) → member i ids ≡ true → P i → Q i)
    → All P ids
    → All Q ids
All-map P Q [] f h = tt
All-map P Q (i ∷ is) f h =
    (f i (ground (arith, ==_refl i)) h.0, All-map P Q is (λ j m. f j (ground (arith, m))) h.1)

module _ {ℓ} {V : Type ℓ} where
  abbrev pub passes : (V → Bool) → Option V → Bool
  passes test none = false
  passes test (some v) = test v

  -- `Model.updateMany({ _id: { $in: ids }, …test }, update)`
  unfoldable pub update_in : List ℕ → (V → Bool) → (V → V) → Table V → Table V
  update_in ids test f [] = []
  update_in ids test f ((k, v) ∷ t) =
      (k, if member k ids && test v then f v else v) ∷ update_in ids test f t

  -- `Model.countDocuments({ _id: { $in: ids }, …test })`: an id that stands twice in the list
  -- names one document. Also the `modifiedCount` of the update, where the update changes each
  -- document that it matches.
  unfoldable pub count_in : List ℕ → (V → Bool) → Table V → ℕ
  count_in [] test t = 0
  count_in (i ∷ is) test t =
      let rest = count_in is test t in
      if member i is then rest else if passes test (find i t) then suc rest else rest

  -- `Model.countDocuments(test)` and the rows that a query selects, in the order of the table
  unfoldable pub count_rows : (ℕ → V → Bool) → Table V → ℕ
  count_rows test [] = 0
  count_rows test ((k, v) ∷ t) = let rest = count_rows test t in if test k v then suc rest else rest

  unfoldable pub select_rows : (ℕ → V → Bool) → Table V → Table V
  select_rows test [] = []
  select_rows test ((k, v) ∷ t) =
      let rest = select_rows test t in if test k v then (k, v) ∷ rest else rest

  -- A read after an update, at every id.
  pub find-update_in :
      (j : ℕ) (ids : List ℕ) (test : V → Bool) (f : V → V) (t : Table V)
      → find j (update_in ids test f t) ≡ elim (find j t) [
        | none ↦ none
        | some v ↦ some (if member j ids && test v then f v else v)
      ]
  unfolding find update_in
  find-update_in j ids test f [] = refl
  find-update_in j ids test f ((k, v) ∷ t) = elim (Bool-cases (j == k)) [
    | inl same ↦ let e : j ≡ k = ground arith in rw (same, ← e)
    | inr other ↦ rw other (find-update_in j ids test f t)
  ]

  -- A document that the table has under an id, and that passes a test.
  abbrev pub Has : (V → Bool) → Table V → ℕ → Type ℓ
  Has test t i = (v : V) × (find i t ≡ some v) × (test v ≡ true)

  -- The ids of a collection are unique.
  abbrev pub HasUniqueIds : Table V → Type ℓ
  HasUniqueIds [] = Unit
  HasUniqueIds ((k, v) ∷ t) = (find k t ≡ none) × HasUniqueIds t

  -- A predicate of every row.
  abbrev pub AllRows {κ} : (ℕ → V → Type κ) → Table V → Type κ
  AllRows P [] = Unit
  AllRows P ((k, v) ∷ t) = P k v × AllRows P t

  pub count_in-le :
      (ids : List ℕ) (test : V → Bool) (t : Table V) → count_in ids test t ≤ length ids
  unfolding count_in
  count_in-le [] test t = omega arith
  count_in-le (i ∷ is) test t = ground (arith, count_in-le is test t)

  count_in-head :
      (i : ℕ) (is : List ℕ) (test : V → Bool) (t : Table V)
      → member i is ≡ false
      → (count_in is test t ≡ length is → Distinct is × All (Has test t) is)
      → count_in (i ∷ is) test t ≡ length (i ∷ is)
      → Distinct (i ∷ is) × All (Has test t) (i ∷ is)
  unfolding count_in
  count_in-head i is test t once ih h = elim (Option-cases (find i t)) [
    | inl missing ↦ absurd (ground (arith, count_in-le is test t))
    | inr (v, e) ↦ elim (Bool-cases (test v)) [
      | inl p ↦ let rest = ih (ground arith) in ((once, rest.0), ((v, e, p), rest.1))
      | inr p ↦ absurd (ground (arith, count_in-le is test t))
    ]
  ]

  -- The count says that every listed document is there, passes the test and is listed once.
  pub count_in-All :
      (ids : List ℕ) (test : V → Bool) (t : Table V)
      → count_in ids test t ≡ length ids
      → Distinct ids × All (Has test t) ids
  unfolding count_in
  count_in-All [] test t h = (tt, tt)
  count_in-All (i ∷ is) test t h = elim (Bool-cases (member i is)) [
    | inl twice ↦ absurd (ground (arith, count_in-le is test t))
    | inr once ↦ count_in-head i is test t once (count_in-All is test t) h
  ]

  pub count_in_complete :
      (ids : List ℕ) (test : V → Bool) (t : Table V)
      → Distinct ids
      → All (Has test t) ids
      → count_in ids test t ≡ length ids
  unfolding count_in
  count_in_complete [] test t d h = refl
  count_in_complete (i ∷ is) test t d h =
      let ih = count_in_complete is test t d.1 h.1 in
      let e = h.0.1 in let p = h.0.2 in rw (d.0, e, p, ih)

  pub modify-HasUniqueIds :
      (k : ℕ) (f : V → V) (t : Table V) → HasUniqueIds t → HasUniqueIds (modify k f t)
  unfolding modify
  modify-HasUniqueIds k f [] h = tt
  modify-HasUniqueIds k f ((j, v) ∷ t) h = elim (Bool-cases (k == j)) [
    | inl same ↦ rw same h
    | inr other ↦ rw other (ground (arith, find-modify j k f t, h.0), modify-HasUniqueIds k f t h.1)
  ]

  pub update_in-HasUniqueIds :
      (ids : List ℕ) (test : V → Bool) (f : V → V) (t : Table V)
      → HasUniqueIds t
      → HasUniqueIds (update_in ids test f t)
  unfolding update_in
  update_in-HasUniqueIds ids test f [] h = tt
  update_in-HasUniqueIds ids test f ((j, v) ∷ t) h =
      (find-update_in j ids test f t ∙ rw h.0, update_in-HasUniqueIds ids test f t h.1)

  -- Where the ids are unique a row is the document that its id names.
  pub rows_found {κ} :
      (P : ℕ → V → Type κ) (t : Table V)
      → HasUniqueIds t
      → ((k : ℕ) (v : V) → find k t ≡ some v → P k v)
      → AllRows P t
  unfolding find
  rows_found P [] u h = tt
  rows_found P ((j, v) ∷ t) u h = (
    h j v (rw (==_refl j)),
    rows_found P t u.1 (λ k w e. h k w (elim (Bool-cases (k == j)) [
      | inl same ↦ absurd (ground (arith, u.0, e))
      | inr other ↦ rw other e
    ])),
  )
