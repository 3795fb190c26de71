-- ===== src/Commissions/Rates.antt =====
-- What a commission is computed from: validateCommissionPercent, resolveCommissionPercent,
-- getPlatformRateSnapshot and buildFxCommissionSnapshot of
-- src/modules/referrals/referralCommission.service.js. Rates and percentages count millionths.
use kanz_coins_backend.Prelude.{ℕ, ◌*◌, Option, none, some}
use kanz_coins_backend.Prelude.Int.{pos, pos_part, ltb_ℤ}
use kanz_coins_backend.Prelude.Tests.{if◌then◌else◌, leb}
use kanz_coins_backend.Prelude.Text.{Text, codes, same_text, get}
use kanz_coins_backend.Prelude.Exec.{Result, ok, err}
use kanz_coins_backend.Money.{Amount, unit}
use kanz_coins_backend.Errors.{
  Error, commission_percent_invalid, commission_percent_too_high, currency_configuration_missing,
  currency_inactive, invalid_platform_rate,
}
use kanz_coins_backend.Db.{User}
use kanz_coins_backend.Store.{Store, Currency, normalize_currency_code}
use kanz_coins_backend.Payouts.Review.{to_cents}

abbrev pub max_commission_percent : ℕ
max_commission_percent = 50 * unit

abbrev pub default_commission_percent : ℕ
default_commission_percent = unit

-- `validateCommissionPercent` of a value that is given; `none` is no finite decimal
unfoldable pub validate_commission_percent : Option Amount → Result Error Amount
validate_commission_percent none = err commission_percent_invalid
validate_commission_percent (some percent) =
    if ltb_ℤ percent (pos 0)
    then err commission_percent_invalid
    else if ltb_ℤ (pos max_commission_percent) percent
    then err commission_percent_too_high
    else ok percent

-- `resolveDefaultCommissionPercent`, from the setting or else the environment's value
abbrev or_default : Result Error Amount → Amount
or_default (ok percent) = percent
or_default (err e) = pos default_commission_percent

unfoldable pub resolve_default_commission_percent : Store → Amount
resolve_default_commission_percent s = or_default (validate_commission_percent s.default_percent)

-- `resolveCommissionPercent`
unfoldable pub resolve_commission_percent : User → Store → Result Error Amount
resolve_commission_percent referrer s = elim referrer.referral_commission_percent_override [
  | some percent ↦ validate_commission_percent (some percent)
  | none ↦ ok (resolve_default_commission_percent s)
]

-- `getPlatformRateSnapshot`
abbrev configured_rate : Option Currency → Result Error ℕ
configured_rate none = err currency_configuration_missing
configured_rate (some currency) =
    if currency.is_active
    then (if leb currency.platform_rate 0
        then err invalid_platform_rate
        else ok currency.platform_rate)
    else err currency_inactive

unfoldable pub platform_rate : Text → Store → Result Error ℕ
platform_rate code s =
    if same_text code (codes "USD") then ok unit else configured_rate (get code s.currencies)

pub record FxSnapshot : Type 0 where
  pub original_amount : Amount
  pub original_currency : Text
  pub commission_percent : Amount
  pub commission_amount_original : Amount
  pub referrer_currency : Text
  pub commission_amount : Amount
  pub source_platform_rate : ℕ
  pub target_platform_rate : ℕ

-- The target's rate is not read again where the currencies agree.
abbrev target_rate : Text → Text → ℕ → Store → Result Error ℕ
target_rate source_code target_code source_rate s =
    if same_text source_code target_code then ok source_rate else platform_rate target_code s

-- A quotient of decimal.js, taken to whole millionths with a half rounded up, is a parameter.
module _ (divide : ℕ → ℕ → ℕ) where
  abbrev snapshot_of : Amount → Text → Text → Amount → ℕ → ℕ → FxSnapshot
  snapshot_of original_amount source_code target_code percent source target =
      let original = to_cents original_amount in
      let commission = divide (pos_part original * pos_part percent) (100 * unit) in
      record {
        original_amount = original;
        original_currency = source_code;
        commission_percent = percent;
        commission_amount_original = pos commission;
        referrer_currency = target_code;
        commission_amount = pos (divide (commission * target) source);
        source_platform_rate = source;
        target_platform_rate = target;
      }

  -- `buildFxCommissionSnapshot`
  unfoldable pub build_fx_commission_snapshot :
      Amount → Text → Text → Amount → Store → Result Error FxSnapshot
  build_fx_commission_snapshot original_amount original_currency referrer_currency percent s =
      let source_code = normalize_currency_code original_currency in
      let target_code = normalize_currency_code referrer_currency in
      elim (platform_rate source_code s) [
        | err e ↦ err e
        | ok source ↦ elim (target_rate source_code target_code source s) [
          | err e ↦ err e
          | ok target ↦
              ok (snapshot_of original_amount source_code target_code percent source target)
        ]
      ]
