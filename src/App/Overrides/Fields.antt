-- ===== src/App/Overrides/Fields.antt =====
-- What `/risk set` makes of the settings.
use hyper_basis.Prelude.{◌≡◌, subst, String, false, List, arith, inl, inr}
use hyper_basis.Prelude.Float.{Float64, nought}
use hyper_basis.Prelude.Int.{pos, ltb_ℤ}
use hyper_basis.Prelude.Numerals.{Numerals}
use hyper_basis.Prelude.Result.{Result, ok, err, Result-cases}
use hyper_basis.Config.{RiskConfig}
use hyper_basis.App.Overrides.{
  apply_risk_overrides, apply_settings, validated, validate_risk_override,
}

module _ {F : Type 0} ⦃fl : Float64 F⦄ where
  -- No setting is negative.
  pub record IsValid (risk : RiskConfig F) : Type 0 where
    pub notional : fl.lt risk.max_notional_usd nought ≡ false
    pub orders : ltb_ℤ risk.max_open_orders (pos 0) ≡ false
    pub margin : fl.lt risk.min_margin_ratio nought ≡ false
    pub health : fl.lt risk.min_health_ratio nought ≡ false
    pub market : ltb_ℤ risk.max_market_age (pos 0) ≡ false
    pub account : ltb_ℤ risk.max_account_age (pos 0) ≡ false

module _ {F : Type 0} ⦃fl : Float64 F⦄ ⦃ns : Numerals F⦄ where
  validate-IsValid : (risk : RiskConfig F) → validate_risk_override risk ≡ ok tt → IsValid risk
  unfolding validate_risk_override
  validate-IsValid risk h = record {
    notional = ground (arith, h);
    orders = ground (arith, h);
    margin = ground (arith, h);
    health = ground (arith, h);
    market = ground (arith, h);
    account = ground (arith, h);
  }

  validated-IsValid :
      (r : Result (RiskConfig F)) (next : RiskConfig F) → validated r ≡ ok next → IsValid next
  unfolding validated
  validated-IsValid (err e) next h = absurd (cc h)
  validated-IsValid (ok risk) next h = elim (Result-cases (validate_risk_override risk)) [
    | inl (_, v) ↦
        let same : ok risk ≡ ok next = rw v at h in
        subst IsValid (cc same) (validate-IsValid risk v)
    | inr (e, v) ↦ absurd (cc (rw v at h))
  ]

  pub apply_risk_overrides-IsValid :
      (base next : RiskConfig F) (overrides : List (String × String))
      → apply_risk_overrides base overrides ≡ ok next
      → IsValid next
  unfolding apply_risk_overrides
  apply_risk_overrides-IsValid base next overrides h =
      validated-IsValid (apply_settings overrides (ok base)) next h
