-- ===== src/OrderFields.antt =====
-- src/modules/orders/orderFields.validator.js: a customer's values for the fields of a product, and
-- their translation to a provider's parameter names. An object is a list of keys and values, with
-- its own keys only; the texts of the error messages are left out.
pub mod Accepted
pub mod Loop
pub mod Rules
pub mod Agreement
pub mod Returned
pub mod Mapping
pub mod Validated
mod Tests
use kanz_coins_backend.Prelude.{
  ℕ, Bool, true, false, not, ◌&&◌, ◌||◌, Option, none, some, List, [], ◌∷◌,
}
use kanz_coins_backend.Prelude.Tests.{if◌then◌else◌, ◌==◌}
use kanz_coins_backend.Prelude.Text.{Text, codes, same_text, trim, includes, get, to_lower_case}
use kanz_coins_backend.Prelude.Number.{Number, is_nan, less_than, parse_float}
use kanz_coins_backend.Prelude.Exec.{Result, ok, err}
use kanz_coins_backend.Errors.{Error, invalid_order_fields}

-- `FIELD_TYPES`, and any other type
pub data FieldType : Type 0 where
  text textarea number select url email tel date image file : FieldType
  unknown : Text → FieldType

-- A submitted value: undefined or null, a text, a number, or another value with what `String()`
-- makes of it.
pub data Value : Type 0 where
  missing : Value
  string : Text → Value
  numeric : Number → Value
  other : ℕ → Text → Value

pub record Field : Type 0 where
  pub key : Text
  pub label : Text
  pub type : FieldType
  pub required : Bool
  -- `isActive !== false`
  pub is_active : Bool
  -- none where it is no array
  pub options : Option (List Text)
  pub min : Option Number
  pub max : Option Number
  pub placeholder : Text

abbrev pub Values : Type 0
Values = List (Text × Value)

-- A line terminator, which `.` in a regular expression does not match.
abbrev is_line_end : ℕ → Bool
is_line_end c = c == 10 || c == 13 || c == 0x2028 || c == 0x2029

-- `/\..+/` at some position, with only `.` before it
abbrev has_dot : Text → Bool
has_dot [] = false
has_dot (c ∷ []) = false
has_dot (c ∷ d ∷ s) =
    let later = has_dot (d ∷ s) in
    (c == b'.' && not (is_line_end d)) || (not (is_line_end c) && later)

-- `/^.+\..+/`
abbrev has_host : Text → Bool
has_host [] = false
has_host (c ∷ s) = not (is_line_end c) && has_dot s

abbrev strip_prefix : Text → Text → Option Text
strip_prefix [] s = some s
strip_prefix (c ∷ p) [] = none
strip_prefix (c ∷ p) (d ∷ s) = let rest = strip_prefix p s in if c == d then rest else none

abbrev host_after : Text → Text → Bool
host_after prefix s = elim (strip_prefix prefix s) [ none ↦ false | some rest ↦ has_host rest ]

-- `URL_REGEX.test(text)`
unfoldable pub is_url : Text → Bool
is_url s =
    let lower = to_lower_case s in
    host_after (codes "http://") lower || host_after (codes "https://") lower

-- `raw === undefined || raw === null || raw === ''`
abbrev pub is_missing : Value → Bool
is_missing missing = true
is_missing (string []) = true
is_missing _ = false

-- What one field does with a value that is there: an error, or the value that is kept.
abbrev pub as_text : Value → Option Value
as_text (string s) = elim (trim s) [ [] ↦ none | c ∷ rest ↦ some (string (c ∷ rest)) ]
as_text _ = none

abbrev pub as_url : Value → Option Value
as_url (string s) = elim (trim s) [
  | [] ↦ none
  | c ∷ rest ↦ if is_url (c ∷ rest) then some (string (c ∷ rest)) else none
]
as_url _ = none

abbrev pub to_number : Value → Number
to_number (numeric n) = n
to_number (string s) = parse_float s
to_number (other id s) = parse_float s
to_number missing = Number.nan

abbrev pub below_min : Option Number → Number → Bool
below_min none n = false
below_min (some m) n = less_than n m

abbrev pub above_max : Option Number → Number → Bool
above_max none n = false
above_max (some m) n = less_than m n

abbrev pub as_number : Field → Value → Option Value
as_number field raw =
    let n = to_number raw in
    if is_nan n
    then none
    else if below_min field.min n
    then none
    else if above_max field.max n
    then none
    else some (numeric n)

abbrev pub options_of : Field → List Text
options_of field = elim field.options [ none ↦ [] | some opts ↦ opts ]

abbrev pub as_option : Field → Value → Option Value
as_option field (string s) = if includes s (options_of field) then some (string s) else none
as_option field _ = none

-- The `switch` on the field's type
unfoldable pub check_value : Field → Value → Option Value
check_value field raw = elim field.type [
  | FieldType.url ↦ as_url raw
  | FieldType.number ↦ as_number field raw
  | FieldType.select ↦ as_option field raw
  | FieldType.unknown name ↦ some raw
  | _ ↦ as_text raw
]

-- `submitted[key]`
abbrev pub value_at : Text → Values → Value
value_at key submitted = elim (get key submitted) [ none ↦ missing | some v ↦ v ]

-- `validatedValues[key] = value`
unfoldable pub put : Text → Value → Values → Values
put key v [] = (key, v) ∷ []
put key v ((k, w) ∷ values) =
    let rest = put key v values in if same_text key k then (k, v) ∷ values else (k, w) ∷ rest

-- The loop over the active fields: the values so far, and whether there was an error.
unfoldable pub check_fields : List Field → Values → Values → Bool → Values × Bool
check_fields [] submitted values failed = (values, failed)
check_fields (field ∷ fields) submitted values failed =
    let raw = value_at field.key submitted in
    let (values', failed') =
      if is_missing raw then (values, failed || field.required) else elim (check_value field raw) [
        | none ↦ (values, true)
        | some v ↦ (put field.key v values, failed)
      ] in
    check_fields fields submitted values' failed'

unfoldable pub active_fields : List Field → List Field
active_fields [] = []
active_fields (f ∷ fs) = let rest = active_fields fs in if f.is_active then f ∷ rest else rest

abbrev pub keys_of : List Field → List Text
keys_of [] = []
keys_of (f ∷ fs) = f.key ∷ keys_of fs

-- Whether every submitted key is allowed
unfoldable pub all_known : List Text → Values → Bool
all_known allowed [] = true
all_known allowed ((k, v) ∷ values) =
    let rest = all_known allowed values in includes k allowed && rest

-- One entry of `fieldsSnapshot`
pub record FieldSnapshot : Type 0 where
  pub key : Text
  pub label : Text
  pub type : FieldType
  pub options : Option (List Text)
  pub placeholder : Text
  pub min : Option Number
  pub max : Option Number

abbrev pub is_select : FieldType → Bool
is_select FieldType.select = true
is_select _ = false

abbrev pub is_number : FieldType → Bool
is_number FieldType.number = true
is_number _ = false

abbrev pub snapshot : Field → FieldSnapshot
snapshot f = record {
  key = f.key;
  label = f.label;
  type = f.type;
  options = if is_select f.type then f.options else none;
  placeholder = f.placeholder;
  min = if is_number f.type then f.min else none;
  max = if is_number f.type then f.max else none;
}

abbrev pub snapshots : List Field → List FieldSnapshot
snapshots [] = []
snapshots (f ∷ fs) = snapshot f ∷ snapshots fs

-- `validateOrderFields`
unfoldable pub validate_order_fields :
    List Field → Values → Result Error (Values × List FieldSnapshot)
validate_order_fields order_fields submitted =
    let active = active_fields order_fields in
    let (values, failed) = check_fields active submitted [] false in
    if not (all_known (keys_of active) submitted)
    then err invalid_order_fields
    else if failed
    then err invalid_order_fields
    else ok (values, snapshots active)

-- `mapped[providerKey || key]`
abbrev pub provider_key : List (Text × Text) → Text → Text
provider_key mapping key = elim (get key mapping) [
  | none ↦ key
  | some [] ↦ key
  | some (c ∷ s) ↦ c ∷ s
]

unfoldable pub map_values : List (Text × Text) → Values → Values → Values
map_values mapping [] mapped = mapped
map_values mapping ((key, v) ∷ values) mapped =
    map_values mapping values (put (provider_key mapping key) v mapped)

-- `applyProviderMapping`; `none` is a mapping that is not set.
unfoldable pub apply_provider_mapping : Values → Option (List (Text × Text)) → Values
apply_provider_mapping values none = values
apply_provider_mapping values (some mapping) = map_values mapping values []
