-- ===== src/App/Regime.antt =====
-- internal/app/app.go: the confirmation of the funding regime and the guard that defers an exit.
pub mod Streaks
pub mod Guard
use hyper_basis.Prelude.{Bool, true, false, not, ◌&&◌, ◌||◌, Option, none, some, if◌then◌else◌}
use hyper_basis.Prelude.Int.{ℤ, pos, ltb_ℤ, leb_ℤ, ◌+ℤ◌, ◌-ℤ◌, wrap, saturate, is_zero}
use hyper_basis.Prelude.Float.{Float64, nought}
use hyper_basis.Config.{StrategyConfig}
use hyper_basis.App.{App, FundingForecast}

abbrev pub at_least_one : ℤ → ℤ
at_least_one n = if ltb_ℤ n (pos 1) then pos 1 else n

-- The three results of `updateFundingRegime`.
pub record Regime : Type 0 where
  pub is_ok : Bool
  pub ok_confirmed : Bool
  pub bad_confirmed : Bool

abbrev pub regime_of : {F : Type 0} → Bool → App F → Regime
regime_of is_ok a = record {
  is_ok = is_ok;
  ok_confirmed = leb_ℤ (at_least_one a.cfg.strategy.funding_confirmations) a.funding_ok_count;
  bad_confirmed = leb_ℤ (at_least_one a.cfg.strategy.funding_dip_confirmations) a.funding_bad_count;
}

module _ {F : Type 0} ⦃fl : Float64 F⦄ where
  open fl use {le}

  abbrev pub regime_ok : F → F → F → F → Bool
  regime_ok funding min_rate net_carry_usd carry_buffer_usd =
      le min_rate funding && le carry_buffer_usd net_carry_usd

  -- The counters after one observation; they are `int`s.
  unfoldable pub count_regime : Bool → App F → App F
  count_regime is_ok a =
      if is_ok
      then record a {
        funding_ok_count = wrap (a.funding_ok_count +ℤ pos 1);
        funding_bad_count = pos 0;
      }
      else record a {
        funding_bad_count = wrap (a.funding_bad_count +ℤ pos 1);
        funding_ok_count = pos 0;
      }

  unfoldable pub update_funding_regime : F → F → F → F → App F → Regime × App F
  update_funding_regime funding min_rate net_carry_usd carry_buffer_usd a =
      let is_ok = regime_ok funding min_rate net_carry_usd carry_buffer_usd in
      let a' = count_regime is_ok a in (regime_of is_ok a', a')

  abbrev pub exit_funding_guard_enabled : StrategyConfig F → Bool
  exit_funding_guard_enabled cfg = elim cfg.exit_funding_guard_enabled [ none ↦ true | some b ↦ b ]

  -- The forecast's rate if it has one, and else the current one.
  abbrev pub expected_rate : FundingForecast F → F → F
  expected_rate forecast funding_rate = if forecast.has_rate then forecast.rate else funding_rate

  abbrev pub defer_until : StrategyConfig F → ℤ → FundingForecast F → F → Bool
  defer_until cfg now forecast funding_rate =
      let until = saturate (forecast.next_funding -ℤ now) in
      if leb_ℤ until (pos 0)
      then false
      else if le (expected_rate forecast funding_rate) nought
      then false
      else leb_ℤ until cfg.exit_funding_guard

  -- The second result of the Go function is for the log only.
  unfoldable pub should_defer_exit_for_funding :
      StrategyConfig F → ℤ → Option (FundingForecast F) → F → Bool
  should_defer_exit_for_funding cfg now none funding_rate = false
  should_defer_exit_for_funding cfg now (some forecast) funding_rate =
      if not (exit_funding_guard_enabled cfg)
        || leb_ℤ cfg.exit_funding_guard (pos 0)
        || not forecast.has_next
        || is_zero forecast.next_funding
      then false
      else defer_until cfg now forecast funding_rate
