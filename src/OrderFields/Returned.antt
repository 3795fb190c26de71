-- ===== src/OrderFields/Returned.antt =====
-- What the loop of validateOrderFields of src/modules/orders/orderFields.validator.js returns, by the
-- rules that it stands for.
use kanz_coins_backend.Prelude.{
  ◌≡◌, refl, Bool, true, false, ◌&&◌, ◌||◌, Option, none, some, List, [], ◌∷◌, arith, inl, inr,
}
use kanz_coins_backend.Prelude.Tests.{if◌then◌else◌, Bool-cases, Option-cases}
use kanz_coins_backend.Prelude.Text.{Text, same_text, get}
use kanz_coins_backend.OrderFields.{
  Field, Value, Values, check_value, check_fields, put, value_at, active_fields, is_missing,
}
use kanz_coins_backend.OrderFields.Accepted.{fits}
use kanz_coins_backend.OrderFields.Loop.{
  is_kept, all_take, check_fields_missing, check_fields_wrong, check_fields_right, get-put,
}
use kanz_coins_backend.OrderFields.Rules.{clean, kept_of, all_content, kept_under, skips, keeps}
use kanz_coins_backend.OrderFields.Agreement.{check_value-eq}

kept_fits : (f : Field) (raw : Value) → is_kept (check_value f raw) ≡ fits f (clean f raw)
kept_fits f raw = elim (Bool-cases (fits f (clean f raw))) [
  | inl good ↦ rw (check_value-eq f raw, good) refl
  | inr bad ↦ rw (check_value-eq f raw, bad) refl
]

pub all_take-eq :
    (fs : List Field) (submitted : Values)
    → all_take (active_fields fs) submitted ≡ all_content fs submitted
unfolding active_fields
all_take-eq [] submitted = refl
all_take-eq (f ∷ fs) submitted = elim (Bool-cases f.is_active) [
  | inl active ↦
      rw (keeps f fs active, kept_fits f (value_at f.key submitted), all_take-eq fs submitted)
        (rw active refl)
  | inr off ↦ rw (skips f fs off, off, all_take-eq fs submitted) refl
]

abbrev pub or_else : Option Value → Option Value → Option Value
or_else (some v) o = some v
or_else none o = o

pub or_else-none : (o : Option Value) → or_else o none ≡ o
or_else-none none = refl
or_else-none (some v) = refl

or_else_last :
    (later : Option Value) (mine : Bool) (kept old : Option Value)
    → or_else later (if mine then or_else kept old else old)
      ≡ or_else (elim later [ some v ↦ some v | none ↦ if mine then kept else none ]) old
or_else_last (some v) mine kept old = refl
or_else_last none true kept old = refl
or_else_last none false kept old = refl

kept_under_off :
    (f : Field) (fs : List Field) (submitted : Values) (key : Text)
    → f.is_active ≡ false
    → kept_under (f ∷ fs) submitted key ≡ kept_under fs submitted key
kept_under_off f fs submitted key off = elim (Option-cases (kept_under fs submitted key)) [
  | inl nothing ↦ ground (arith, nothing, off)
  | inr (v, something) ↦ ground (arith, something)
]

-- One field's step: the key of the field gets what the field keeps, any other key what it had.
StepGets : Field → List Field → Values → Values → Bool → Text → Type 0
StepGets f fs submitted values failed key =
    ((values' : Values) × (failed' : Bool) × (check_fields (f ∷ fs) submitted values failed
        ≡ check_fields fs submitted values' failed')
      × (get key values' ≡ (
          if f.is_active && same_text key f.key
          then or_else (kept_of f submitted) (get key values)
          else get key values)))

step_gets :
    (f : Field) (fs : List Field) (submitted values : Values) (failed : Bool) (key : Text)
    → f.is_active ≡ true
    → StepGets f fs submitted values failed key
unfolding StepGets
step_gets f fs submitted values failed key active =
    let raw = value_at f.key submitted in
    elim (Bool-cases (is_missing raw)) [
      | inl absent ↦ (
        values,
        failed || f.required,
        check_fields_missing f fs submitted values failed absent,
        ground (arith, absent, active),
      )
      | inr there ↦ elim (Bool-cases (fits f (clean f raw))) [
        | inl good ↦ (
          put f.key (clean f raw) values,
          failed,
          check_fields_right f fs submitted values failed (clean f raw) there
              (rw (check_value-eq f raw, good) refl),
          ground (arith, get-put key f.key (clean f raw) values, there, good, active),
        )
        | inr bad ↦ (
          values,
          true,
          check_fields_wrong f fs submitted values failed there
              (rw (check_value-eq f raw, bad) refl),
          ground (arith, there, bad, active),
        )
      ]
    ]

nothing_left :
    (submitted values : Values) (failed : Bool)
    → (check_fields (active_fields []) submitted values failed).0 ≡ values
unfolding check_fields active_fields
nothing_left submitted values failed = refl

-- A key's value after the loop is what its active fields keep, or else what it was.
pub get-check_fields :
    (fs : List Field) (submitted values : Values) (failed : Bool) (key : Text)
    → get key (check_fields (active_fields fs) submitted values failed).0
      ≡ or_else (kept_under fs submitted key) (get key values)
unfolding StepGets
get-check_fields [] submitted values failed key = rw (nothing_left submitted values failed) refl
get-check_fields (f ∷ fs) submitted values failed key = elim (Bool-cases f.is_active) [
  | inl active ↦
      let (values', failed', step, got) =
        step_gets f (active_fields fs) submitted values failed key active in
      rw (keeps f fs active, step, get-check_fields fs submitted values' failed' key, got)
        (or_else_last (kept_under fs submitted key) (f.is_active && same_text key f.key)
          (kept_of f submitted) (get key values))
  | inr off ↦
      rw
        (
          skips f fs off,
          get-check_fields fs submitted values failed key,
          kept_under_off f fs submitted key off,
        )
        refl
]
