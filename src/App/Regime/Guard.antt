-- ===== src/App/Regime/Guard.antt =====
-- When the guard of `shouldDeferExitForFunding` defers an exit.
use hyper_basis.Prelude.{◌≡◌, true, false}
use hyper_basis.Prelude.Int.{ℤ, pos, ltb_ℤ, leb_ℤ, ◌-ℤ◌, saturate, is_zero}
use hyper_basis.Prelude.Float.{Float64, nought}
use hyper_basis.Config.{StrategyConfig}
use hyper_basis.App.{FundingForecast}
use hyper_basis.App.Regime.{exit_funding_guard_enabled, expected_rate}

module _ {F : Type 0} ⦃fl : Float64 F⦄ where
  open fl use {le}

  -- A payment that is not `<= 0` is expected within the time of the guard.
  pub record Deferred (cfg : StrategyConfig F) (now : ℤ) (forecast : FundingForecast F) (rate : F)
      : Type 0 where
    enabled : exit_funding_guard_enabled cfg ≡ true
    has_next : forecast.has_next ≡ true
    set : is_zero forecast.next_funding ≡ false
    ahead : ltb_ℤ (pos 0) (saturate (forecast.next_funding -ℤ now)) ≡ true
    soon : leb_ℤ (saturate (forecast.next_funding -ℤ now)) cfg.exit_funding_guard ≡ true
    pays : le (expected_rate forecast rate) nought ≡ false
