-- ===== src/App.antt =====
-- internal/app/app.go: the bot. `App` is the part of the Go struct that changes, with the counters
-- of internal/metrics/metrics.go; `Services` are the components that it calls, each an operation on
-- an environment `E`; `World` is an app, an environment and the calls that were made to the exchange.
-- The model is of an app as `New` builds it, so its pointers are set. Logging is left out, and the
-- records of other packages keep the fields that the bot reads.
pub mod Numbers
pub mod Fills
pub mod Upkeep
pub mod Frame
pub mod Entry
pub mod Exit
pub mod Regime
pub mod Hedge
pub mod Receipts
pub mod Tick
pub mod Restore
pub mod Overrides
pub mod Operator
use hyper_basis.Prelude.{ℕ, suc, String, Bool, Option, List, [], ◌∷◌}
use hyper_basis.Prelude.Int.{ℤ}
use hyper_basis.Prelude.Result.{Err, Result}
use hyper_basis.Config.{Config, RiskConfig}
use hyper_basis.Strategy.{StateMachine, Event, apply}
use hyper_basis.Exec.{Order, Cancel}

-- internal/market/marketdata.go
pub record PerpContext (F : Type 0) : Type 0 where
  pub index : ℤ
  pub funding_rate : F
  pub oracle_price : F
  pub mark_price : F
  pub sz_decimals : ℤ

pub record SpotContext : Type 0 where
  pub symbol : String
  pub base : String
  pub base_sz_decimals : ℤ
  pub mid_key : String

-- internal/market/funding.go
pub record FundingForecast (F : Type 0) : Type 0 where
  pub rate : F
  pub has_rate : Bool
  pub next_funding : ℤ
  pub has_next : Bool
  pub interval : ℤ

-- What the code reads of an open order of internal/account: missing fields are "" and 0.
pub record OpenOrder : Type 0 where
  pub order_id : String
  pub cloid : String
  pub asset_symbol : String
  pub asset_id : ℤ

pub record MarginSummary (F : Type 0) : Type 0 where
  pub account_value : F
  pub margin_ratio : F
  pub health_ratio : F
  pub has_margin_ratio : Bool
  pub has_health_ratio : Bool

pub record AccountState (F : Type 0) : Type 0 where
  pub spot_balances : List (String × F)
  pub perp_position : List (String × F)
  pub open_orders : List OpenOrder
  pub margin_summary : MarginSummary F
  pub has_margin_summary : Bool

pub record Fill (F : Type 0) : Type 0 where
  pub order_id : String
  pub size : F

-- internal/account/funding.go
pub record FundingPayment : Type 0 where
  pub asset : String
  pub time : ℤ
  pub has_time : Bool

-- internal/state/strategy_snapshot.go
pub record StrategySnapshot (F : Type 0) : Type 0 where
  pub action : String
  pub spot_asset : String
  pub perp_asset : String
  pub spot_mid_price : F
  pub perp_mid_price : F
  pub spot_balance : F
  pub perp_position : F
  pub open_orders : ℤ
  pub updated_at_ms : ℤ

-- The alerts that are sent, without the text that is made of them.
pub data Alert (F : Type 0) : Type 0 where
  connectivity_lost : Err → Alert F
  entry_failed exit_failed : (perp_asset spot_asset : String) → Err → Alert F
  entered : (perp_asset spot_asset : String) → F → Alert F
  exited : (perp_asset spot_asset : String) → Alert F

-- internal/metrics/metrics.go
pub record Metrics : Type 0 where
  pub orders_placed : ℕ
  pub orders_failed : ℕ
  pub entry_failed : ℕ
  pub exit_failed : ℕ
  pub kill_switch_engaged : ℕ
  pub kill_switch_restored : ℕ

pub record App (F : Type 0) : Type 0 where
  pub cfg : Config F
  pub strategy : StateMachine
  pub metrics : Metrics
  pub snapshot_persist_warned : Bool
  pub kill_switch_active : Bool
  pub funding_ok_count : ℤ
  pub funding_bad_count : ℤ
  pub funding_forecast_warned : Bool
  pub funding_receipt_warned : Bool
  pub entry_cooldown_until : ℤ
  pub hedge_cooldown_until : ℤ
  pub last_funding_receipt_check : ℤ
  pub last_funding_receipt_at : ℤ
  pub paused : Bool
  pub risk_override : Option (RiskConfig F)

pub record Services (F E : Type 0) : Type 0 where
  -- the market data
  pub refresh_contexts : E → E
  pub refresh_funding_forecast : E → Result Bool × E
  pub mid : String → E → Result F × E
  pub oracle_price : String → E → Option F
  pub funding_rate : String → E → Option F
  pub volatility : String → E → Option F
  pub perp_context : String → E → Option (PerpContext F)
  pub spot_context : String → E → Option SpotContext
  pub perp_asset_id : String → E → Option ℤ
  pub spot_asset_id : String → E → Option ℤ
  pub funding_forecast : String → E → Option (FundingForecast F)
  pub last_mid_update : E → ℤ
  -- the account
  pub reconcile : E → Result (AccountState F) × E
  pub snapshot : E → AccountState F
  pub last_update : E → ℤ
  pub fills_enabled : E → Bool
  pub fill_size : String → E → F
  pub user_fills_by_time : ℤ → E → Result (List (Fill F)) × E
  pub open_orders : E → Result (List OpenOrder) × E
  pub user_funding : ℤ → E → Result (List FundingPayment) × E
  -- the executor and the exchange client
  pub place_order : Order F → E → Result String × E
  pub cancel_order : Cancel → E → Result (Unit {0}) × E
  pub usd_class_transfer : F → Bool → E → Result (Unit {0}) × E
  -- the store, the alerts, the clock and the random numbers
  pub save_strategy_snapshot : StrategySnapshot F → E → Result (Unit {0}) × E
  pub send_alert : Alert F → E → E
  pub now : E → ℤ × E
  pub new_cloid : E → Result String × E
  -- A deadline timer and a ticker of these periods: how often the ticker wakes the loop before it
  -- ends, and whether it is the context that ends it, and not the deadline.
  pub start_timers : (timeout poll : ℤ) → E → (ℕ × Bool) × E

pub data Call (F : Type 0) : Type 0 where
  place : Order F → Call F
  cancel : Cancel → Call F
  transfer : (amount : F) → (to_perp : Bool) → Call F

pub record World (F E : Type 0) : Type 0 where
  pub app : App F
  pub env : E
  -- the newest first
  pub calls : List (Call F)

-- The orders among the calls.
abbrev pub placed : {F : Type 0} → List (Call F) → List (Order F)
placed [] = []
placed (place order ∷ cs) = order ∷ placed cs
placed (cancel c ∷ cs) = placed cs
placed (transfer amount to_perp ∷ cs) = placed cs

module _ {F E : Type 0} where
  abbrev pub set_env : E → World F E → World F E
  set_env e w = record { app = w.app; env = e; calls = w.calls }

  abbrev pub set_app : App F → World F E → World F E
  set_app a w = record { app = a; env = w.env; calls = w.calls }

  abbrev pub set_metrics : Metrics → World F E → World F E
  set_metrics m w = set_app (record w.app { metrics = m }) w

  abbrev pub orders_placed_inc : World F E → World F E
  orders_placed_inc w =
      set_metrics (record w.app.metrics { orders_placed = suc w.app.metrics.orders_placed }) w

  abbrev pub orders_failed_inc : World F E → World F E
  orders_failed_inc w =
      set_metrics (record w.app.metrics { orders_failed = suc w.app.metrics.orders_failed }) w

  -- `a.strategy.Apply(event)`
  unfoldable pub apply_event : Event → World F E → World F E
  unfolding apply
  apply_event event w = set_app (record w.app { strategy = (apply w.app.strategy event).0 }) w

  unfoldable pub reset_to_idle : World F E → World F E
  unfolding apply_event
  reset_to_idle w = apply_event Event.done (apply_event Event.exit w)
