-- ===== src/Deposits/Automation.antt =====
-- src/modules/deposits/paymentMethodAutomation.service.js: which payment methods need no receipt.
use kanz_coins_backend.Prelude.{
  Bool, true, false, ◌&&◌, ◌||◌, Option, none, some, List, [], ◌∷◌, ◌++◌,
}
use kanz_coins_backend.Prelude.Tests.{if◌then◌else◌, ◌==◌}
use kanz_coins_backend.Prelude.Text.{Text, codes, same_text, trim, to_lower_case}

-- A field that is missing or empty is the empty text.
pub record PaymentMethod : Type 0 where
  pub id : Text
  pub name : Text
  pub type : Text

-- `text.startsWith(part)` and `text.includes(part)`
abbrev starts_with : Text → Text → Bool
starts_with [] s = true
starts_with (c ∷ p) [] = false
starts_with (c ∷ p) (d ∷ s) = c == d && starts_with p s

abbrev pub contains : Text → Text → Bool
contains part [] = starts_with part []
contains part (c ∷ s) = starts_with part (c ∷ s) || contains part s

abbrev space : Text
space = codes " "

-- The names of the two methods in Arabic letters.
abbrev vodafone_in_arabic : Text
vodafone_in_arabic = 0x641 ∷ 0x648 ∷ 0x62f ∷ 0x627 ∷ 0x641 ∷ 0x648 ∷ 0x646 ∷ []

abbrev usdt_in_arabic : Text
usdt_in_arabic =
    0x64a ∷ 0x648 ∷ 0x20 ∷ 0x627 ∷ 0x633 ∷ 0x20 ∷ 0x62f ∷ 0x64a ∷ 0x20 ∷ 0x62a ∷ 0x64a ∷ []

abbrev has_vodafone_identity : PaymentMethod → Bool
has_vodafone_identity m =
    let token = to_lower_case (m.id ++ (space ++ m.name)) in
    contains (codes "vodafone") token || contains vodafone_in_arabic token

abbrev has_usdt_identity : PaymentMethod → Bool
has_usdt_identity m =
    let token = to_lower_case (m.id ++ (space ++ (m.name ++ (space ++ m.type)))) in
    let type = to_lower_case (trim m.type) in
    contains (codes "usdt") token
    || contains (codes "tether") token
    || contains usdt_in_arabic token
    || same_text type (codes "usdt")
    || same_text type (codes "crypto")

-- `isAutomatedPaymentMethodDefinition`
unfoldable pub is_automated_definition : PaymentMethod → Bool
is_automated_definition m = has_usdt_identity m || has_vodafone_identity m

-- `findConfiguredPaymentMethod`, over the methods of all groups in their order
unfoldable pub find_configured : Text → List PaymentMethod → Option PaymentMethod
find_configured id [] = none
find_configured id (m ∷ ms) = if same_text (trim m.id) id then some m else find_configured id ms

abbrev of_configured : Option PaymentMethod → Bool
of_configured none = false
of_configured (some m) = is_automated_definition m

-- `isAutomatedPaymentMethod`: a method that is not configured is not automated.
unfoldable pub is_automated_payment_method : List PaymentMethod → Text → Bool
is_automated_payment_method methods payment_method_id = elim (trim payment_method_id) [
  | [] ↦ false
  | c ∷ s ↦ of_configured (find_configured (c ∷ s) methods)
]
