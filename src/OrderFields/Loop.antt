-- ===== src/OrderFields/Loop.antt =====
-- The loop of validateOrderFields of src/modules/orders/orderFields.validator.js: its steps on one
-- field, and its outcome.
use kanz_coins_backend.Prelude.{
  ◌≡◌, refl, Bool, true, false, not, ◌&&◌, ◌||◌, Option, none, some, List, [], ◌∷◌, arith, inl, inr,
}
use kanz_coins_backend.Prelude.Tests.{if◌then◌else◌, Bool-cases, Option-cases}
use kanz_coins_backend.Prelude.Text.{Text, same_text, same_text_iff, get}
use kanz_coins_backend.Prelude.Exec.{ok, err}
use kanz_coins_backend.Errors.{invalid_order_fields}
use kanz_coins_backend.OrderFields.{
  Field, Value, Values, check_value, value_at, put, check_fields, active_fields, keys_of, all_known,
  is_missing, validate_order_fields, snapshots,
}

abbrev pub is_kept : Option Value → Bool
is_kept none = false
is_kept (some v) = true

-- Whether every field takes what was submitted for it: a missing value if it is optional, a value
-- that passes its type's check otherwise.
abbrev pub all_take : List Field → Values → Bool
all_take [] submitted = true
all_take (f ∷ fs) submitted =
    let rest = all_take fs submitted in
    let raw = value_at f.key submitted in
    (if is_missing raw then not f.required else is_kept (check_value f raw)) && rest

pub check_fields_missing :
    (f : Field) (fs : List Field) (submitted values : Values) (failed : Bool)
    → is_missing (value_at f.key submitted) ≡ true
    → check_fields (f ∷ fs) submitted values failed
      ≡ check_fields fs submitted values (failed || f.required)
unfolding check_fields
check_fields_missing f fs submitted values failed h = rw h refl

pub check_fields_wrong :
    (f : Field) (fs : List Field) (submitted values : Values) (failed : Bool)
    → is_missing (value_at f.key submitted) ≡ false
    → check_value f (value_at f.key submitted) ≡ none
    → check_fields (f ∷ fs) submitted values failed ≡ check_fields fs submitted values true
unfolding check_fields
check_fields_wrong f fs submitted values failed h e = rw (h, e) refl

pub check_fields_right :
    (f : Field) (fs : List Field) (submitted values : Values) (failed : Bool) (v : Value)
    → is_missing (value_at f.key submitted) ≡ false
    → check_value f (value_at f.key submitted) ≡ some v
    → check_fields (f ∷ fs) submitted values failed
      ≡ check_fields fs submitted (put f.key v values) failed
unfolding check_fields
check_fields_right f fs submitted values failed v h e = rw (h, e) refl

check_fields_done :
    (submitted values : Values) (failed : Bool)
    → (check_fields [] submitted values failed).1 ≡ failed || false
unfolding check_fields
check_fields_done submitted values failed = ground arith

check_fields-all_take :
    (fs : List Field) (submitted values : Values) (failed : Bool)
    → (check_fields fs submitted values failed).1 ≡ failed || not (all_take fs submitted)
check_fields-all_take [] submitted values failed = check_fields_done submitted values failed
check_fields-all_take (f ∷ fs) submitted values failed =
    let raw = value_at f.key submitted in
    elim (Bool-cases (is_missing raw)) [
      | inl absent ↦
          rw
            (
              check_fields_missing f fs submitted values failed absent,
              check_fields-all_take fs submitted values (failed || f.required),
            )
            (ground (arith, absent))
      | inr there ↦ elim (Option-cases (check_value f raw)) [
        | inl wrong ↦
            rw
              (
                check_fields_wrong f fs submitted values failed there wrong,
                check_fields-all_take fs submitted values true,
              )
              (ground (arith, there, wrong))
        | inr (v, right) ↦
            rw
              (
                check_fields_right f fs submitted values failed v there right,
                check_fields-all_take fs submitted (put f.key v values) failed,
              )
              (ground (arith, there, right))
      ]
    ]

pub validate_order_fields_runs :
    (order_fields : List Field) (submitted : Values)
    → let active = active_fields order_fields in
      validate_order_fields order_fields submitted ≡ (
        if all_known (keys_of active) submitted && all_take active submitted
        then ok ((check_fields active submitted [] false).0, snapshots active)
        else err invalid_order_fields)
unfolding validate_order_fields
validate_order_fields_runs order_fields submitted =
    let active = active_fields order_fields in
    let failed = check_fields-all_take active submitted [] false in ground (arith, failed)

pub get-put :
    (j k : Text) (v : Value) (values : Values)
    → get j (put k v values) ≡ (if same_text j k then some v else get j values)
unfolding get put
get-put j k v [] = refl
get-put j k v ((i, w) ∷ values) = elim (Bool-cases (same_text k i)) [
  | inl same ↦ ground (arith, same, (same_text_iff k i).0 same)
  | inr other ↦
      ground (
        arith,
        other,
        get-put j k v values,
        same_text_iff j k,
        same_text_iff j i,
        same_text_iff k i,
      )
]
