-- ===== src/App/Overrides.antt =====
-- internal/app/operator.go: the settings of `/risk set`. The keys of the map are the known keys in lower
-- case; an unknown key is kept as it is written, since it is refused anyway.
pub mod Fields
use hyper_basis.Prelude.{
  String, Bool, true, false, not, ◌&&◌, ◌||◌, Option, none, some, List, [], ◌∷◌, str_eq,
  if◌then◌else◌,
}
use hyper_basis.Prelude.Float.{Float64, nought}
use hyper_basis.Prelude.Int.{ℤ, pos, ltb_ℤ, eqb_ℤ}
use hyper_basis.Prelude.Numerals.{Numerals}
use hyper_basis.Prelude.Result.{
  Err, Result, ok, err, risk_settings_missing, risk_setting_invalid, risk_key_unknown,
  max_notional_invalid, max_open_orders_invalid, min_margin_ratio_invalid, min_health_ratio_invalid,
  max_market_age_invalid, max_account_age_invalid, max_notional_negative, max_open_orders_negative,
  min_margin_ratio_negative, min_health_ratio_negative, max_market_age_negative,
  max_account_age_negative,
}
use hyper_basis.Prelude.Text.{trim_space, lower_eq, cut_at_equals}
use hyper_basis.Prelude.Dict.{insert}
use hyper_basis.Config.{RiskConfig}

abbrev pub known_keys : List String
known_keys =
    "max_notional_usd" ∷ "max_open_orders" ∷ "min_margin_ratio" ∷ "min_health_ratio"
    ∷ "max_market_age" ∷ "max_account_age" ∷ []

abbrev pub canonical : List String → String → String
canonical [] key = key
canonical (known ∷ more) key =
    let rest = canonical more key in if lower_eq key known then known else rest

abbrev pub add_setting :
    Option (String × String) → Result (List (String × String)) → Result (List (String × String))
add_setting none settings = err risk_setting_invalid
add_setting (some (key, value)) (err e) = err e
add_setting (some (key, value)) (ok settings) =
    let k = trim_space key in
    let v = trim_space value in
    if str_eq k "" || str_eq v ""
    then err risk_setting_invalid
    else ok (insert (canonical known_keys k) v settings)

-- The loop over the settings, with what is read so far.
unfoldable pub read_settings :
    List String → Result (List (String × String)) → Result (List (String × String))
read_settings [] settings = settings
read_settings (arg ∷ rest) (err e) = err e
read_settings (arg ∷ rest) (ok settings) =
    read_settings rest (add_setting (cut_at_equals arg) (ok settings))

unfoldable pub parse_risk_overrides : List String → Result (List (String × String))
parse_risk_overrides [] = err risk_settings_missing
parse_risk_overrides args = read_settings args (ok [])

module _ {F : Type 0} where
  abbrev pub or_invalid : {A : Type 0} → Err → Option A → (A → RiskConfig F) → Result (RiskConfig F)
  or_invalid e none f = err e
  or_invalid e (some x) f = ok (f x)

module _ {F : Type 0} ⦃fl : Float64 F⦄ ⦃ns : Numerals F⦄ where
  -- One setting of the loop.
  unfoldable pub apply_setting : String × String → RiskConfig F → Result (RiskConfig F)
  apply_setting (key, value) next =
      if str_eq key "max_notional_usd"
      then or_invalid max_notional_invalid (ns.parse_float value)
          (λ x. record next { max_notional_usd = x })
      else if str_eq key "max_open_orders"
      then or_invalid max_open_orders_invalid (ns.parse_int value)
          (λ n. record next { max_open_orders = n })
      else if str_eq key "min_margin_ratio"
      then or_invalid min_margin_ratio_invalid (ns.parse_float value)
          (λ x. record next { min_margin_ratio = x })
      else if str_eq key "min_health_ratio"
      then or_invalid min_health_ratio_invalid (ns.parse_float value)
          (λ x. record next { min_health_ratio = x })
      else if str_eq key "max_market_age"
      then or_invalid max_market_age_invalid (ns.parse_duration value)
          (λ d. record next { max_market_age = d })
      else if str_eq key "max_account_age"
      then or_invalid max_account_age_invalid (ns.parse_duration value)
          (λ d. record next { max_account_age = d })
      else err risk_key_unknown

  unfoldable pub apply_settings :
      List (String × String) → Result (RiskConfig F) → Result (RiskConfig F)
  apply_settings [] next = next
  apply_settings (setting ∷ settings) (err e) = err e
  apply_settings (setting ∷ settings) (ok next) =
      apply_settings settings (apply_setting setting next)

  unfoldable pub validate_risk_override : RiskConfig F → Result (Unit {0})
  validate_risk_override risk =
      if fl.lt risk.max_notional_usd nought
      then err max_notional_negative
      else if ltb_ℤ risk.max_open_orders (pos 0)
      then err max_open_orders_negative
      else if fl.lt risk.min_margin_ratio nought
      then err min_margin_ratio_negative
      else if fl.lt risk.min_health_ratio nought
      then err min_health_ratio_negative
      else if ltb_ℤ risk.max_market_age (pos 0)
      then err max_market_age_negative
      else if ltb_ℤ risk.max_account_age (pos 0)
      then err max_account_age_negative
      else ok tt

  abbrev pub validated_as : RiskConfig F → Result (Unit {0}) → Result (RiskConfig F)
  validated_as next (err e) = err e
  validated_as next (ok _) = ok next

  unfoldable pub validated : Result (RiskConfig F) → Result (RiskConfig F)
  validated (err e) = err e
  validated (ok next) = validated_as next (validate_risk_override next)

  unfoldable pub apply_risk_overrides :
      RiskConfig F → List (String × String) → Result (RiskConfig F)
  apply_risk_overrides base overrides = validated (apply_settings overrides (ok base))

  unfoldable pub risk_configs_equal : RiskConfig F → RiskConfig F → Bool
  risk_configs_equal a b =
      fl.eq a.max_notional_usd b.max_notional_usd
      && eqb_ℤ a.max_open_orders b.max_open_orders
      && fl.eq a.min_margin_ratio b.min_margin_ratio
      && fl.eq a.min_health_ratio b.min_health_ratio
      && eqb_ℤ a.max_market_age b.max_market_age
      && eqb_ℤ a.max_account_age b.max_account_age
