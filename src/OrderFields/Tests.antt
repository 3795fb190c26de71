-- ===== src/OrderFields/Tests.antt =====
-- Test runs of src/modules/orders/orderFields.validator.js, and its properties at concrete fields.
use kanz_coins_backend.Prelude.{◌≡◌, refl, true, false, ◌&&◌, none, some, List, [], ◌∷◌}
use kanz_coins_backend.Prelude.Int.{pos}
use kanz_coins_backend.Prelude.Tests.{if◌then◌else◌}
use kanz_coins_backend.Prelude.Text.{Text, codes, includes, get}
use kanz_coins_backend.Prelude.Number.{Number, parse_float}
use kanz_coins_backend.Prelude.Exec.{ok, err}
use kanz_coins_backend.Errors.{invalid_order_fields}
use kanz_coins_backend.OrderFields.{
  Field, FieldType, Value, Values, validate_order_fields, check_fields, check_value, is_url, put,
  active_fields, all_known, snapshots, apply_provider_mapping,
}
use kanz_coins_backend.OrderFields.Rules.{all_expected, all_content, all_remembered, kept_under}
use kanz_coins_backend.OrderFields.Validated.{
  validate_order_fields-eq, kept_by, accepted_values_fit,
}
use kanz_coins_backend.OrderFields.Mapping.{sent_as, apply_provider_mapping-get}

parses_exponent : parse_float (codes " 12.5e1x") ≡ Number.decimal (pos 1250) 1
parses_exponent = refl

parses_nothing : parse_float (codes "abc") ≡ Number.nan
parses_nothing = refl

abbrev link_field : Field
link_field = record {
  key = codes "link";
  label = codes "Link";
  type = FieldType.url;
  required = true;
  is_active = true;
  options = none;
  min = none;
  max = none;
  placeholder = [];
}

abbrev amount_field : Field
amount_field = record {
  key = codes "amount";
  label = codes "Amount";
  type = FieldType.number;
  required = false;
  is_active = true;
  options = none;
  min = some (Number.decimal (pos 10) 0);
  max = none;
  placeholder = [];
}

abbrev fields : List Field
fields = link_field ∷ amount_field ∷ []

abbrev submission : Values
submission =
    (codes "amount", Value.string (codes "10.5"))
    ∷ (codes "link", Value.string (codes " https://a.b "))
    ∷ []

abbrev kept : Values
kept =
    (codes "link", Value.string (codes "https://a.b"))
    ∷ (codes "amount", Value.numeric (Number.decimal (pos 105) 1))
    ∷ []

accepts_submission : validate_order_fields fields submission ≡ ok (kept, snapshots fields)
unfolding validate_order_fields check_fields check_value is_url put active_fields all_known includes
    get
accepts_submission = refl

refuses_small_amount :
    validate_order_fields fields (
      (codes "link", Value.string (codes "http://a.b"))
      ∷ (codes "amount", Value.numeric (Number.decimal (pos 99) 1))
      ∷ [])
    ≡ err invalid_order_fields
unfolding validate_order_fields check_fields check_value is_url put active_fields all_known includes
    get
refuses_small_amount = refl

refuses_unknown_key :
    validate_order_fields fields ((codes "other", Value.string (codes "x")) ∷ submission)
    ≡ err invalid_order_fields
unfolding validate_order_fields check_fields check_value is_url put active_fields all_known includes
    get
refuses_unknown_key = refl

validate_order_fields-eq_example :
    ((values : Values) × (validate_order_fields fields submission ≡ (
        if all_expected fields submission && all_content fields submission
        then ok (values, all_remembered fields)
        else err invalid_order_fields))
      × ((key : Text) → get key values ≡ kept_under fields submission key))
validate_order_fields-eq_example = validate_order_fields-eq fields submission

got_amount : get (codes "amount") kept ≡ some (Value.numeric (Number.decimal (pos 105) 1))
unfolding get
got_amount = refl

accepted_values_fit_example :
    kept_by (active_fields fields) (codes "amount") (Value.numeric (Number.decimal (pos 105) 1))
    ≡ true
accepted_values_fit_example =
    accepted_values_fit fields submission kept (snapshots fields) accepts_submission
      (codes "amount") (Value.numeric (Number.decimal (pos 105) 1)) got_amount

abbrev mapping : List (Text × Text)
mapping = (codes "link", codes "url") ∷ []

apply_provider_mapping-get_example :
    get (codes "url") (apply_provider_mapping kept (some mapping))
    ≡ sent_as mapping (codes "url") kept
apply_provider_mapping-get_example = apply_provider_mapping-get kept mapping (codes "url")
