-- ===== src/Strategy.antt =====
-- internal/strategy: the states and events of the position (types.go), the state machine
-- (state_machine.go), the risk and connectivity checks (risk.go) and the expected carry (carry.go).
pub mod Machine
pub mod Checks
use hyper_basis.Prelude.{String, ℕ, Bool, true, false, not, ◌&&◌, if◌then◌else◌}
use hyper_basis.Prelude.Int.{ℤ, pos, ltb_ℤ}
use hyper_basis.Prelude.Float.{Float64, nought}
use hyper_basis.Prelude.Result.{
  Err, Result, ok, err, notional_exceeded, open_orders_exceeded, margin_ratio_low, health_ratio_low,
  market_stale, account_stale,
}
use hyper_basis.Config.{RiskConfig}

pub data State : Type 0 where
  idle enter hedge_ok exit : State

-- An event and the state that it leads to are spelled alike.
pub data Event : Type 0 where
  enter hedge_ok exit done : Event

pub record MarketSnapshot (F : Type 0) : Type 0 where
  pub perp_asset : String
  pub spot_asset : String
  pub spot_mid_price : F
  pub perp_mid_price : F
  pub oracle_price : F
  pub funding_rate : F
  pub volatility : F
  pub notional_usd : F
  pub spot_balance : F
  pub perp_position : F
  pub open_order_count : ℤ
  pub margin_ratio : F
  pub health_ratio : F
  pub has_margin_ratio : Bool
  pub has_health_ratio : Bool

unfoldable pub next_state : State → Event → State
next_state State.idle Event.enter = State.enter
next_state State.enter Event.hedge_ok = State.hedge_ok
next_state State.enter Event.exit = State.exit
next_state State.hedge_ok Event.exit = State.exit
next_state State.exit Event.hedge_ok = State.hedge_ok
next_state State.exit Event.done = State.idle
next_state current _ = current

-- `StateMachine` holds its state under a lock, so each method is one step.
pub record StateMachine : Type 0 where
  pub state : State

abbrev pub new_state_machine : StateMachine
new_state_machine = record { state = State.idle }

unfoldable pub apply : StateMachine → Event → StateMachine × State
unfolding next_state
apply s event = let t = next_state s.state event in (record { state = t }, t)

unfoldable pub set_state : StateMachine → State → StateMachine
set_state s state = record { state = state }

abbrev pub round_trip_legs : ℕ
round_trip_legs = 4

module _ {F : Type 0} ⦃fl : Float64 F⦄ where
  open fl use {lit, add, sub, mul, div, abs, lt, le, eq}

  unfoldable pub price_for_funding : MarketSnapshot F → F
  price_for_funding snap =
      if lt nought snap.oracle_price
      then snap.oracle_price
      else if lt nought snap.perp_mid_price
      then snap.perp_mid_price
      else snap.spot_mid_price

  unfoldable pub funding_notional_usd : MarketSnapshot F → F
  unfolding price_for_funding
  funding_notional_usd snap =
      let price = price_for_funding snap in
      if eq price nought
      then (if lt nought snap.notional_usd then snap.notional_usd else nought)
      else if not (eq snap.perp_position nought)
      then mul (abs snap.perp_position) price
      else if not (eq snap.spot_balance nought)
      then mul (abs snap.spot_balance) price
      else if lt nought snap.notional_usd
      then snap.notional_usd
      else nought

  unfoldable pub funding_payment_estimate_usd : MarketSnapshot F → F
  funding_payment_estimate_usd snap = mul (funding_notional_usd snap) snap.funding_rate

  -- `notional` of `CheckRisk` and `EstimatedCostsUSD`: the funding notional, or the configured one.
  unfoldable pub notional_or_configured : MarketSnapshot F → F
  notional_or_configured snap =
      let notional = funding_notional_usd snap in
      if eq notional nought then snap.notional_usd else notional

  unfoldable pub check_risk : RiskConfig F → MarketSnapshot F → Result (Unit {0})
  check_risk cfg snap =
      if lt nought cfg.max_notional_usd && lt cfg.max_notional_usd (notional_or_configured snap)
      then err notional_exceeded
      else if ltb_ℤ (pos 0) cfg.max_open_orders && ltb_ℤ cfg.max_open_orders snap.open_order_count
      then err open_orders_exceeded
      else if lt nought cfg.min_margin_ratio
          && snap.has_margin_ratio
          && lt snap.margin_ratio cfg.min_margin_ratio
      then err margin_ratio_low
      else if lt nought cfg.min_health_ratio
          && snap.has_health_ratio
          && lt snap.health_ratio cfg.min_health_ratio
      then err health_ratio_low
      else ok tt

  unfoldable pub check_connectivity : RiskConfig F → ℤ → ℤ → Result (Unit {0})
  check_connectivity cfg market_age account_age =
      if ltb_ℤ (pos 0) cfg.max_market_age && ltb_ℤ cfg.max_market_age market_age
      then err market_stale
      else if ltb_ℤ (pos 0) cfg.max_account_age && ltb_ℤ cfg.max_account_age account_age
      then err account_stale
      else ok tt

  unfoldable pub estimated_costs_usd : MarketSnapshot F → F → F → F
  estimated_costs_usd snap fee_bps slippage_bps =
      let notional = notional_or_configured snap in
      let rate = div (add fee_bps slippage_bps) (lit 10000 0) in
      if eq notional nought
      then nought
      else if le rate nought
      then nought
      else mul (mul notional rate) (lit round_trip_legs 0)

  unfoldable pub net_expected_carry_usd : MarketSnapshot F → F → F → F × F
  net_expected_carry_usd snap fee_bps slippage_bps =
      let cost = estimated_costs_usd snap fee_bps slippage_bps in
      (sub (funding_payment_estimate_usd snap) cost, cost)
