-- ===== src/OrderFields/Mapping.antt =====
-- applyProviderMapping of src/modules/orders/orderFields.validator.js: which value a provider
-- parameter gets.
use kanz_coins_backend.Prelude.{◌≡◌, refl, Option, none, some, List, [], ◌∷◌, arith}
use kanz_coins_backend.Prelude.Tests.{if◌then◌else◌}
use kanz_coins_backend.Prelude.Text.{Text, same_text, get}
use kanz_coins_backend.OrderFields.{
  Value, Values, put, provider_key, map_values, apply_provider_mapping,
}
use kanz_coins_backend.OrderFields.Loop.{get-put}

-- The value of the last key that the mapping sends to a parameter.
abbrev pub sent_as : List (Text × Text) → Text → Values → Option Value
sent_as mapping parameter [] = none
sent_as mapping parameter ((key, v) ∷ values) =
    let rest = sent_as mapping parameter values in
    elim rest [
      | some w ↦ some w
      | none ↦ if same_text parameter (provider_key mapping key) then some v else none
    ]

abbrev or_else : Option Value → Option Value → Option Value
or_else none v = v
or_else (some w) v = some w

map_values-get :
    (mapping : List (Text × Text)) (parameter : Text) (values mapped : Values)
    → get parameter (map_values mapping values mapped)
      ≡ or_else (sent_as mapping parameter values) (get parameter mapped)
unfolding map_values
map_values-get mapping parameter [] mapped = refl
map_values-get mapping parameter ((key, v) ∷ values) mapped =
    let rest = map_values-get mapping parameter values (put (provider_key mapping key) v mapped) in
    ground (arith, rest, get-put parameter (provider_key mapping key) v mapped)

-- A provider parameter gets the value of the last key that the mapping sends to it, and is left out
-- if there is none: a key without an entry in the mapping, or with an empty one, is its own
-- parameter.
pub apply_provider_mapping-get :
    (values : Values) (mapping : List (Text × Text)) (parameter : Text)
    → get parameter (apply_provider_mapping values (some mapping))
      ≡ sent_as mapping parameter values
unfolding apply_provider_mapping get
apply_provider_mapping-get values mapping parameter =
    let rest = map_values-get mapping parameter values [] in ground (arith, rest)
