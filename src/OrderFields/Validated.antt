-- ===== src/OrderFields/Validated.antt =====
-- validateOrderFields of src/modules/orders/orderFields.validator.js as a whole: when it accepts,
-- and what the values that it returns are like.
use kanz_coins_backend.Prelude.{
  ◌≡◌, refl, Bool, true, false, ◌&&◌, ◌||◌, some, List, [], ◌∷◌, arith, inl, inr,
}
use kanz_coins_backend.Prelude.Tests.{if◌then◌else◌, Bool-cases, Option-cases}
use kanz_coins_backend.Prelude.Text.{Text, same_text, same_text_iff, same_text_refl, get}
use kanz_coins_backend.Prelude.Exec.{ok, err}
use kanz_coins_backend.Errors.{invalid_order_fields}
use kanz_coins_backend.OrderFields.{
  Field, Value, Values, check_value, value_at, put, check_fields, active_fields, is_missing,
  validate_order_fields, FieldSnapshot,
}
use kanz_coins_backend.OrderFields.Loop.{
  check_fields_missing, check_fields_wrong, check_fields_right, validate_order_fields_runs, get-put,
}
use kanz_coins_backend.OrderFields.Rules.{all_expected, all_content, all_remembered, kept_under}
use kanz_coins_backend.OrderFields.Agreement.{all_known-eq, snapshots-eq}
use kanz_coins_backend.OrderFields.Returned.{or_else-none, all_take-eq, get-check_fields}
use kanz_coins_backend.OrderFields.Accepted.{fits, check_value-fits}

-- The validation accepts exactly when every submitted key is one of an active field and every active
-- field is content: a missing value is all right if the field is optional, any other one if it fits in
-- its clean form, a text being trimmed and a number read. It then returns values in which each key has
-- the clean value of the last active field of that key that keeps one, and no value if none does, with
-- what is remembered of each active field in their order. It throws otherwise.
pub validate_order_fields-eq :
    (order_fields : List Field) (submitted : Values)
    → ((values : Values) × (validate_order_fields order_fields submitted ≡ (
          if all_expected order_fields submitted && all_content order_fields submitted
          then ok (values, all_remembered order_fields)
          else err invalid_order_fields))
        × ((key : Text) → get key values ≡ kept_under order_fields submitted key))
unfolding get
validate_order_fields-eq order_fields submitted =
    let active = active_fields order_fields in
    let known = all_known-eq order_fields submitted in
    let content = all_take-eq order_fields submitted in
    let shown = snapshots-eq order_fields in
    (
      (check_fields active submitted [] false).0,
      rw (validate_order_fields_runs order_fields submitted, known, content, shown) refl,
      λ key.
          rw (get-check_fields order_fields submitted [] false key)
            (or_else-none (kept_under order_fields submitted key)),
    )

-- Whether a field of the key takes the value as it was kept.
abbrev pub kept_by : List Field → Text → Value → Bool
kept_by [] key v = false
kept_by (f ∷ fs) key v = let rest = kept_by fs key v in (same_text f.key key && fits f v) || rest

abbrev pub AllKept : List Field → Values → Type 0
AllKept fields values =
    (key : Text) (v : Value) → get key values ≡ some v → kept_by fields key v ≡ true

put-AllKept :
    (fields : List Field) (key : Text) (v : Value) (values : Values)
    → AllKept fields values
    → kept_by fields key v ≡ true
    → AllKept fields (put key v values)
put-AllKept fields key v values h fits_here j w e = elim (Bool-cases (same_text j key)) [
  | inl same ↦
      let same_key = (same_text_iff j key).0 same in
      let same_value : v ≡ w = ground (arith, same, e, get-put j key v values) in
      rw (same_key, ← same_value) fits_here
  | inr other ↦ h j w (ground (arith, other, e, get-put j key v values))
]

-- The fields that are still to come are among all of them.
abbrev Within : List Field → List Field → Type 0
Within fields all =
    (key : Text) (v : Value) → kept_by fields key v ≡ true → kept_by all key v ≡ true

nothing_more :
    (all : List Field) (submitted values : Values) (failed : Bool)
    → AllKept all values
    → AllKept all (check_fields [] submitted values failed).0
unfolding check_fields
nothing_more all submitted values failed h = h

none_kept : (all : List Field) → AllKept all []
unfolding get
none_kept all key v h = absurd (ground arith)

check_fields-AllKept :
    (all fs : List Field) (submitted values : Values) (failed : Bool)
    → Within fs all
    → AllKept all values
    → AllKept all (check_fields fs submitted values failed).0
check_fields-AllKept all [] submitted values failed within h =
    nothing_more all submitted values failed h
check_fields-AllKept all (f ∷ fs) submitted values failed within h =
    let raw = value_at f.key submitted in
    let within' : Within fs all = λ key v e. within key v (ground (arith, e)) in
    elim (Bool-cases (is_missing raw)) [
      | inl absent ↦
          rw (check_fields_missing f fs submitted values failed absent)
            (check_fields-AllKept all fs submitted values (failed || f.required) within' h)
      | inr there ↦ elim (Option-cases (check_value f raw)) [
        | inl wrong ↦
            rw (check_fields_wrong f fs submitted values failed there wrong)
              (check_fields-AllKept all fs submitted values true within' h)
        | inr (v, right) ↦
            let here : kept_by (f ∷ fs) f.key v ≡ true =
              ground (arith, same_text_refl f.key, check_value-fits f raw v right) in
            rw (check_fields_right f fs submitted values failed v there right) (
              check_fields-AllKept all fs submitted (put f.key v values) failed within'
                (put-AllKept all f.key v values h (within f.key v here)))
      ]
    ]

-- Every value that an accepted submission returns is under the key of an active field that takes it:
-- a text that is not empty, a URL, a number within the field's bounds, or one of its options.
pub accepted_values_fit :
    (order_fields : List Field) (submitted values : Values) (fields_snapshot : List FieldSnapshot)
    → validate_order_fields order_fields submitted ≡ ok (values, fields_snapshot)
    → (key : Text) (v : Value) → get key values ≡ some v
    → kept_by (active_fields order_fields) key v ≡ true
accepted_values_fit order_fields submitted values fields_snapshot accepted key v e =
    let active = active_fields order_fields in
    let kept =
      check_fields-AllKept active active submitted [] false (λ k w h. h) (none_kept active) in
    kept key v (ground (arith, accepted, e, validate_order_fields_runs order_fields submitted))
