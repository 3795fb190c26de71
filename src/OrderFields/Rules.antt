-- ===== src/OrderFields/Rules.antt =====
-- The rules that validateOrderFields of src/modules/orders/orderFields.validator.js stands for, stated
-- over all fields of the product and without its loop, and how its helpers relate to them.
use kanz_coins_backend.Prelude.{
  ◌≡◌, refl, Bool, true, false, not, ◌&&◌, ◌||◌, Option, none, some, List, [], ◌∷◌,
}
use kanz_coins_backend.Prelude.Tests.{if◌then◌else◌}
use kanz_coins_backend.Prelude.Text.{Text, same_text, trim}
use kanz_coins_backend.OrderFields.{
  Field, FieldType, Value, Values, value_at, active_fields, is_missing, to_number, FieldSnapshot,
}
use kanz_coins_backend.OrderFields.Accepted.{fits}

abbrev pub trimmed : Value → Value
trimmed (Value.string s) = Value.string (trim s)
trimmed v = v

-- The form in which a field of a type keeps a value: a text without the spaces around it, the number
-- that it reads, or the value as it is.
abbrev pub clean_as : FieldType → Value → Value
clean_as FieldType.number raw = Value.numeric (to_number raw)
clean_as FieldType.select raw = raw
clean_as (FieldType.unknown name) raw = raw
clean_as _ raw = trimmed raw

abbrev pub clean : Field → Value → Value
clean f raw = clean_as f.type raw

-- Whether a field is content with what was submitted for it.
abbrev pub is_content : Field → Values → Bool
is_content f submitted =
    let raw = value_at f.key submitted in
    if is_missing raw then not f.required else fits f (clean f raw)

-- What a field keeps of a submission.
abbrev pub kept_of : Field → Values → Option Value
kept_of f submitted =
    let raw = value_at f.key submitted in
    if not (is_missing raw) && fits f (clean f raw) then some (clean f raw) else none

-- Whether all active fields are content.
abbrev pub all_content : List Field → Values → Bool
all_content [] submitted = true
all_content (f ∷ fs) submitted =
    let rest = all_content fs submitted in (not f.is_active || is_content f submitted) && rest

-- Whether an active field has the key.
abbrev pub has_key : List Field → Text → Bool
has_key [] key = false
has_key (f ∷ fs) key = let rest = has_key fs key in (f.is_active && same_text key f.key) || rest

-- Whether every submitted key is one of an active field.
abbrev pub all_expected : List Field → Values → Bool
all_expected fields [] = true
all_expected fields ((k, v) ∷ values) =
    let rest = all_expected fields values in has_key fields k && rest

-- What the active fields of a key keep of a submission: the last that keeps something decides.
abbrev pub kept_under : List Field → Values → Text → Option Value
kept_under [] submitted key = none
kept_under (f ∷ fs) submitted key =
    let later = kept_under fs submitted key in
    elim later [
      | some v ↦ some v
      | none ↦ if f.is_active && same_text key f.key then kept_of f submitted else none
    ]

-- What an order remembers of a field: the options of a selection, the bounds of a number.
abbrev pub remembered : Field → FieldSnapshot
remembered f =
    let plain : FieldSnapshot = record {
      key = f.key;
      label = f.label;
      type = f.type;
      options = none;
      placeholder = f.placeholder;
      min = none;
      max = none;
    } in
    elim f.type [
      | FieldType.select ↦ record plain { options = f.options }
      | FieldType.number ↦ record plain { min = f.min; max = f.max }
      | _ ↦ plain
    ]

abbrev pub all_remembered : List Field → List FieldSnapshot
all_remembered [] = []
all_remembered (f ∷ fs) =
    let rest = all_remembered fs in if f.is_active then remembered f ∷ rest else rest

pub skips :
    (f : Field) (fs : List Field) → f.is_active ≡ false → active_fields (f ∷ fs) ≡ active_fields fs
unfolding active_fields
skips f fs h = rw h refl

pub keeps :
    (f : Field) (fs : List Field)
    → f.is_active ≡ true
    → active_fields (f ∷ fs) ≡ f ∷ active_fields fs
unfolding active_fields
keeps f fs h = rw h refl
