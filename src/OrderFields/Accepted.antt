-- ===== src/OrderFields/Accepted.antt =====
-- When validateOrderFields of src/modules/orders/orderFields.validator.js accepts, and what the
-- values that it keeps are like.
use kanz_coins_backend.Prelude.{
  ◌≡◌, refl, Bool, true, false, not, ◌&&◌, none, some, [], ◌∷◌, arith, inl, inr,
}
use kanz_coins_backend.Prelude.Tests.{if◌then◌else◌, Bool-cases}
use kanz_coins_backend.Prelude.Text.{Text, trim, includes}
use kanz_coins_backend.Prelude.Number.{Number, is_nan}
use kanz_coins_backend.OrderFields.{
  Field, FieldType, Value, is_url, below_min, above_max, options_of, check_value, as_text, as_url,
  as_number, as_option, to_number,
}

-- What a kept value of a field must be: a text that is not empty, a URL, a number within the
-- field's bounds, or one of its options. A field of an unknown type takes anything.
abbrev pub fits : Field → Value → Bool
fits field v = elim field.type [
  | FieldType.url ↦ elim v [ Value.string s ↦ is_url s | _ ↦ false ]
  | FieldType.number ↦ elim v [
    | Value.numeric n ↦ not (is_nan n) && not (below_min field.min n) && not (above_max field.max n)
    | _ ↦ false
  ]
  | FieldType.select ↦ elim v [ Value.string s ↦ includes s (options_of field) | _ ↦ false ]
  | FieldType.unknown name ↦ true
  | _ ↦ elim v [ Value.string (c ∷ s) ↦ true | _ ↦ false ]
]

abbrev pub is_filled : Value → Bool
is_filled (Value.string (c ∷ s)) = true
is_filled _ = false

kept_text :
    (t : Text) (v : Value)
    → elim t [ [] ↦ none | c ∷ rest ↦ some (Value.string (c ∷ rest)) ] ≡ some v
    → is_filled v ≡ true
kept_text [] v h = ground arith
kept_text (c ∷ t) v h = ground arith

kept_url :
    (t : Text) (v : Value)
    → elim t [
      | [] ↦ none
      | c ∷ rest ↦ if is_url (c ∷ rest) then some (Value.string (c ∷ rest)) else none
    ]
      ≡ some v
    → elim v [ Value.string s ↦ is_url s | _ ↦ false ] ≡ true
kept_url [] v h = ground arith
kept_url (c ∷ t) v h = ground arith

as_text-fits : (raw v : Value) → as_text raw ≡ some v → is_filled v ≡ true
as_text-fits (Value.string s) v h = kept_text (trim s) v h
as_text-fits _ v h = ground arith

as_url-fits :
    (raw v : Value) → as_url raw ≡ some v → elim v [ Value.string s ↦ is_url s | _ ↦ false ] ≡ true
as_url-fits (Value.string s) v h = kept_url (trim s) v h
as_url-fits _ v h = ground arith

as_option-fits :
    (field : Field) (raw v : Value)
    → as_option field raw ≡ some v
    → elim v [ Value.string s ↦ includes s (options_of field) | _ ↦ false ] ≡ true
as_option-fits field (Value.string s) v h = elim (Bool-cases (includes s (options_of field))) [
  | inl known ↦ ground (arith, h, known)
  | inr unknown ↦ ground (arith, h, unknown)
]
as_option-fits field _ v h = ground arith

abbrev pub is_bounded : Field → Value → Bool
is_bounded field v = elim v [
  | Value.numeric n ↦ not (is_nan n) && not (below_min field.min n) && not (above_max field.max n)
  | _ ↦ false
]

kept_number :
    (bad low high : Bool) (n : Number) (v : Value)
    → (if bad then none else if low then none else if high then none else some (Value.numeric n))
      ≡ some v
    → (v ≡ Value.numeric n) × (bad ≡ false) × (low ≡ false) × (high ≡ false)
kept_number bad low high n v h = ground (arith, h)

as_number-fits :
    (field : Field) (raw v : Value) → as_number field raw ≡ some v → is_bounded field v ≡ true
as_number-fits field raw v h =
    let n = to_number raw in
    let (kept, good, low, high) =
      kept_number (is_nan n) (below_min field.min n) (above_max field.max n) n v h in
    rw (kept, good, low, high) refl

pub check_value-fits :
    (field : Field) (raw v : Value) → check_value field raw ≡ some v → fits field v ≡ true
unfolding check_value
check_value-fits field raw v h =
    elim field.type
        as (λ t.
          (elim t [
            | FieldType.url ↦ as_url raw
            | FieldType.number ↦ as_number field raw
            | FieldType.select ↦ as_option field raw
            | FieldType.unknown name ↦ some raw
            | _ ↦ as_text raw
          ]
            ≡ some v)
          → elim t [
            | FieldType.url ↦ elim v [ Value.string s ↦ is_url s | _ ↦ false ]
            | FieldType.number ↦ is_bounded field v
            | FieldType.select ↦ elim v [
              | Value.string s ↦ includes s (options_of field)
              | _ ↦ false
            ]
            | FieldType.unknown name ↦ true
            | _ ↦ is_filled v
          ]
            ≡ true) [
              | FieldType.url ↦ as_url-fits raw v
              | FieldType.number ↦ as_number-fits field raw v
              | FieldType.select ↦ as_option-fits field raw v
              | FieldType.unknown name ↦ λ _. refl
              | _ ↦ as_text-fits raw v
            ]
      h
