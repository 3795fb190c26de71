-- ===== src/OrderFields/Agreement.antt =====
-- The loop of validateOrderFields of src/modules/orders/orderFields.validator.js against the rules that
-- it stands for.
use kanz_coins_backend.Prelude.{
  ◌≡◌, refl, Bool, true, false, Option, none, some, List, [], ◌∷◌, arith, inl, inr,
}
use kanz_coins_backend.Prelude.Tests.{if◌then◌else◌, Bool-cases}
use kanz_coins_backend.Prelude.Text.{Text, trim, includes}
use kanz_coins_backend.Prelude.Number.{Number, is_nan}
use kanz_coins_backend.OrderFields.{
  Field, FieldType, Value, Values, check_value, active_fields, keys_of, all_known, is_url, as_text,
  as_url, as_number, as_option, options_of, to_number, below_min, FieldSnapshot, is_select,
  is_number, snapshot, snapshots,
}
use kanz_coins_backend.OrderFields.Accepted.{fits, is_filled, is_bounded}
use kanz_coins_backend.OrderFields.Rules.{
  trimmed, clean_as, clean, has_key, all_expected, remembered, all_remembered,
}

abbrev pub only_if : Bool → Value → Option Value
only_if ok v = if ok then some v else none

abbrev holds_url : Value → Bool
holds_url v = elim v [ Value.string s ↦ is_url s | _ ↦ false ]

abbrev holds_option : Field → Value → Bool
holds_option f v = elim v [ Value.string s ↦ includes s (options_of f) | _ ↦ false ]

filled_text :
    (t : Text)
    → elim t [ [] ↦ none | c ∷ rest ↦ some (Value.string (c ∷ rest)) ]
      ≡ only_if (is_filled (Value.string t)) (Value.string t)
filled_text [] = refl
filled_text (c ∷ t) = refl

filled_url :
    (t : Text)
    → elim t [
      | [] ↦ none
      | c ∷ rest ↦ if is_url (c ∷ rest) then some (Value.string (c ∷ rest)) else none
    ]
      ≡ only_if (is_url t) (Value.string t)
unfolding is_url
filled_url [] = refl
filled_url (c ∷ t) = refl

as_text-eq : (raw : Value) → as_text raw ≡ only_if (is_filled (trimmed raw)) (trimmed raw)
as_text-eq (Value.string s) = filled_text (trim s)
as_text-eq _ = refl

as_url-eq : (raw : Value) → as_url raw ≡ only_if (holds_url (trimmed raw)) (trimmed raw)
as_url-eq (Value.string s) = filled_url (trim s)
as_url-eq _ = refl

as_option-eq : (f : Field) (raw : Value) → as_option f raw ≡ only_if (holds_option f raw) raw
as_option-eq f (Value.string s) = refl
as_option-eq f _ = refl

as_number-eq :
    (f : Field) (raw : Value)
    → let v = Value.numeric (to_number raw) in as_number f raw ≡ only_if (is_bounded f v) v
as_number-eq f raw =
    let n = to_number raw in
    elim (Bool-cases (is_nan n)) [
      | inl bad ↦ ground (arith, bad)
      | inr good ↦ elim (Bool-cases (below_min f.min n)) [
        | inl low ↦ ground (arith, good, low)
        | inr high ↦ ground (arith, good, high)
      ]
    ]

-- A field takes a value exactly when its clean form fits, and keeps that.
pub check_value-eq :
    (f : Field) (raw : Value) → check_value f raw ≡ only_if (fits f (clean f raw)) (clean f raw)
unfolding check_value
check_value-eq f raw =
    elim f.type
      as (λ t.
        let c = clean_as t raw in
        elim t [
          | FieldType.url ↦ as_url raw
          | FieldType.number ↦ as_number f raw
          | FieldType.select ↦ as_option f raw
          | FieldType.unknown name ↦ some raw
          | _ ↦ as_text raw
        ]
        ≡ only_if
            (elim t [
              | FieldType.url ↦ holds_url c
              | FieldType.number ↦ is_bounded f c
              | FieldType.select ↦ holds_option f c
              | FieldType.unknown name ↦ true
              | _ ↦ is_filled c
            ])
            c) [
              | FieldType.url ↦ as_url-eq raw
              | FieldType.number ↦ as_number-eq f raw
              | FieldType.select ↦ as_option-eq f raw
              | FieldType.unknown name ↦ refl
              | _ ↦ as_text-eq raw
            ]

abbrev shown : Field → Option (List Text) → Option Number → Option Number → FieldSnapshot
shown f options min max = record {
  key = f.key;
  label = f.label;
  type = f.type;
  options = options;
  placeholder = f.placeholder;
  min = min;
  max = max;
}

snapshot-eq : (f : Field) → snapshot f ≡ remembered f
snapshot-eq f =
    elim f.type
      as (λ t.
        shown f (if is_select t then f.options else none) (if is_number t then f.min else none)
          (if is_number t then f.max else none)
        ≡ elim t [
          | FieldType.select ↦ shown f f.options none none
          | FieldType.number ↦ shown f none f.min f.max
          | _ ↦ shown f none none none
        ]) [ FieldType.select ↦ refl | FieldType.number ↦ refl | _ ↦ refl ]

pub snapshots-eq : (fs : List Field) → snapshots (active_fields fs) ≡ all_remembered fs
unfolding active_fields
snapshots-eq [] = refl
snapshots-eq (f ∷ fs) = ground (arith, snapshots-eq fs, snapshot-eq f)

known_key :
    (fs : List Field) (key : Text) → includes key (keys_of (active_fields fs)) ≡ has_key fs key
unfolding active_fields includes
known_key [] key = refl
known_key (f ∷ fs) key = ground (arith, known_key fs key)

pub all_known-eq :
    (fs : List Field) (submitted : Values)
    → all_known (keys_of (active_fields fs)) submitted ≡ all_expected fs submitted
unfolding all_known
all_known-eq fs [] = refl
all_known-eq fs ((k, v) ∷ values) = ground (arith, known_key fs k, all_known-eq fs values)
