-- ===== src/Strategy/Checks.antt =====
-- What holds of `CheckRisk` and `CheckConnectivity` of internal/strategy/risk.go.
use hyper_basis.Prelude.{◌≡◌, ◌↔◌, true, arith}
use hyper_basis.Prelude.Int.{ℤ, pos, ltb_ℤ}
use hyper_basis.Prelude.Float.{Float64, nought}
use hyper_basis.Prelude.Result.{
  Err, ok, err, notional_exceeded, open_orders_exceeded, margin_ratio_low, health_ratio_low,
  market_stale, account_stale,
}
use hyper_basis.Config.{RiskConfig}
use hyper_basis.Strategy.{MarketSnapshot, notional_or_configured, check_risk, check_connectivity}

module _ {F : Type 0} ⦃fl : Float64 F⦄ (cfg : RiskConfig F) where
  open fl use {lt}

  -- A limit that is not positive is off. A ratio that the account does not report is not checked.
  abbrev pub Violates : MarketSnapshot F → Err → Type 0
  Violates snap notional_exceeded =
      (lt nought cfg.max_notional_usd ≡ true)
      × (lt cfg.max_notional_usd (notional_or_configured snap) ≡ true)
  Violates snap open_orders_exceeded =
      (ltb_ℤ (pos 0) cfg.max_open_orders ≡ true)
      × (ltb_ℤ cfg.max_open_orders snap.open_order_count ≡ true)
  Violates snap margin_ratio_low =
      (lt nought cfg.min_margin_ratio ≡ true)
      × (snap.has_margin_ratio ≡ true)
      × (lt snap.margin_ratio cfg.min_margin_ratio ≡ true)
  Violates snap health_ratio_low =
      (lt nought cfg.min_health_ratio ≡ true)
      × (snap.has_health_ratio ≡ true)
      × (lt snap.health_ratio cfg.min_health_ratio ≡ true)
  Violates snap _ = ⊥

  accepted_within :
      (snap : MarketSnapshot F) (e : Err) → check_risk cfg snap ≡ ok tt → ¬ Violates snap e
  unfolding check_risk
  accepted_within snap notional_exceeded h v = ground arith
  accepted_within snap open_orders_exceeded h v = ground arith
  accepted_within snap margin_ratio_low h v = ground arith
  accepted_within snap health_ratio_low h v = ground arith
  accepted_within snap _ h v = v

  within_accepted :
      (snap : MarketSnapshot F) → ((e : Err) → ¬ Violates snap e) → check_risk cfg snap ≡ ok tt
  unfolding check_risk
  within_accepted snap h =
      ground
        (arith, h notional_exceeded, h open_orders_exceeded, h margin_ratio_low, h health_ratio_low)

  refused-Violates :
      (snap : MarketSnapshot F) (e : Err) → check_risk cfg snap ≡ err e → Violates snap e
  unfolding check_risk
  refused-Violates snap notional_exceeded h = ground arith
  refused-Violates snap open_orders_exceeded h = ground arith
  refused-Violates snap margin_ratio_low h = ground arith
  refused-Violates snap health_ratio_low h = ground arith
  refused-Violates snap _ h = ground arith

  -- `CheckRisk` accepts a snapshot exactly when it violates no limit, and the error that it returns
  -- names a limit that is violated.
  pub check_risk_sound :
      (snap : MarketSnapshot F)
      → ((check_risk cfg snap ≡ ok tt) ↔ ((e : Err) → ¬ Violates snap e))
        × ((e : Err) → check_risk cfg snap ≡ err e → Violates snap e)
  check_risk_sound snap =
      ((λ h e. accepted_within snap e h, within_accepted snap), refused-Violates snap)

  -- Data that is older than its limit. A limit that is not positive is off.
  abbrev pub Stale : ℤ → ℤ → Err → Type 0
  Stale market_age account_age market_stale =
      (ltb_ℤ (pos 0) cfg.max_market_age ≡ true) × (ltb_ℤ cfg.max_market_age market_age ≡ true)
  Stale market_age account_age account_stale =
      (ltb_ℤ (pos 0) cfg.max_account_age ≡ true) × (ltb_ℤ cfg.max_account_age account_age ≡ true)
  Stale market_age account_age _ = ⊥

  connected_fresh :
      (market_age account_age : ℤ) (e : Err)
      → check_connectivity cfg market_age account_age ≡ ok tt
      → ¬ Stale market_age account_age e
  unfolding check_connectivity
  connected_fresh m a market_stale h v = ground arith
  connected_fresh m a account_stale h v = ground arith
  connected_fresh m a _ h v = v

  fresh_connected :
      (market_age account_age : ℤ)
      → ((e : Err) → ¬ Stale market_age account_age e)
      → check_connectivity cfg market_age account_age ≡ ok tt
  unfolding check_connectivity
  fresh_connected m a h = ground (arith, h market_stale, h account_stale)

  refused-Stale :
      (market_age account_age : ℤ) (e : Err)
      → check_connectivity cfg market_age account_age ≡ err e
      → Stale market_age account_age e
  unfolding check_connectivity
  refused-Stale m a market_stale h = ground arith
  refused-Stale m a account_stale h = ground arith
  refused-Stale m a _ h = ground arith

  -- `CheckConnectivity` accepts the ages of the market data and of the account exactly when neither is
  -- above its limit, a limit that is not positive being off, and its error names data that is stale.
  pub check_connectivity_sound :
      (market_age account_age : ℤ)
      → ((check_connectivity cfg market_age account_age ≡ ok tt)
          ↔ ((e : Err) → ¬ Stale market_age account_age e))
        × ((e : Err)
            → check_connectivity cfg market_age account_age ≡ err e
            → Stale market_age account_age e)
  check_connectivity_sound m a =
      ((λ h e. connected_fresh m a e h, fresh_connected m a), refused-Stale m a)
