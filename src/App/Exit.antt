-- ===== src/App/Exit.antt =====
-- internal/app/app.go: `exitPosition`, which closes the spot leg and then the perp leg.
pub mod Ends
pub mod Outcome
use hyper_basis.Prelude.{
  suc, String, Bool, true, false, ◌&&◌, ◌||◌, Option, none, some, if◌then◌else◌,
}
use hyper_basis.Prelude.Int.{ℤ}
use hyper_basis.Prelude.Float.{Float64, nought}
use hyper_basis.Prelude.Result.{
  Err, Result, ok, err, perp_context_missing, spot_asset_id_missing, invalid_size_or_price,
  spot_exit_unfilled, perp_exit_unfilled,
}
use hyper_basis.Config.{StrategyConfig}
use hyper_basis.Strategy.{Event, MarketSnapshot}
use hyper_basis.Exec.{Order}
use hyper_basis.App.{
  Services, World, exit_failed, exited, PerpContext, SpotContext, set_env, set_metrics, apply_event,
}
use hyper_basis.App.Numbers.{
  flat_epsilon, exposure_below_threshold, limit_price_with_offset, normalize_limit_price,
  round_size,
}
use hyper_basis.App.Fills.{place_and_wait, cancel_if_open, rollback_spot_with}
use hyper_basis.App.Upkeep.{persist_strategy_snapshot, spot_context}
use hyper_basis.App.Entry.{spot_ref, perp_ref}

-- The values that `exitPosition` derives before it places anything.
pub record ExitPlan (F : Type 0) : Type 0 where
  pub spot_id : ℤ
  pub perp_id : ℤ
  pub spot_limit : F
  pub perp_limit : F
  pub spot_rollback_limit : F
  pub spot_size : F
  pub perp_size : F
  -- the sides of the two orders and of the rollback
  pub spot_is_buy : Bool
  pub perp_is_buy : Bool
  pub rollback_is_buy : Bool

abbrev pub spot_exit_order : {F : Type 0} → ExitPlan F → String → Order F
spot_exit_order plan cloid = record {
  asset = plan.spot_id;
  is_buy = plan.spot_is_buy;
  size = plan.spot_size;
  limit_price = plan.spot_limit;
  reduce_only = false;
  client_order_id = cloid;
  tif = "";
}

abbrev pub perp_exit_order : {F : Type 0} → ExitPlan F → String → Order F
perp_exit_order plan cloid = record {
  asset = plan.perp_id;
  is_buy = plan.perp_is_buy;
  size = plan.perp_size;
  limit_price = plan.perp_limit;
  reduce_only = true;
  client_order_id = cloid;
  tif = "";
}

module _ {F : Type 0} ⦃fl : Float64 F⦄ where
  open fl use {abs, lt, le}

  -- The size of a leg: nothing if the rounded size is dust.
  unfoldable pub exit_size : StrategyConfig F → F → ℤ → F → F
  exit_size cfg amount decimals limit =
      let size = round_size (abs amount) decimals in
      if exposure_below_threshold cfg size limit then nought else size

  unfoldable pub sized_exit :
      StrategyConfig F → MarketSnapshot F → PerpContext F → SpotContext → ℤ → Result (ExitPlan F)
  sized_exit cfg snap perp spot spot_id =
      let decimals = spot.base_sz_decimals in
      let spot_limit = normalize_limit_price (spot_ref snap) true decimals in
      let perp_limit = normalize_limit_price (perp_ref snap) false perp.sz_decimals in
      let back = le nought snap.spot_balance in
      if le spot_limit nought || le perp_limit nought
      then err invalid_size_or_price
      else ok (record {
        spot_id = spot_id;
        perp_id = perp.index;
        spot_limit = spot_limit;
        perp_limit = perp_limit;
        spot_rollback_limit =
            limit_price_with_offset (spot_ref snap) back true decimals cfg.ioc_price_bps;
        spot_size = exit_size cfg snap.spot_balance decimals spot_limit;
        perp_size = exit_size cfg snap.perp_position perp.sz_decimals perp_limit;
        spot_is_buy = lt snap.spot_balance nought;
        perp_is_buy = lt snap.perp_position nought;
        rollback_is_buy = back;
      })

module _ {F E : Type 0} ⦃fl : Float64 F⦄ (sv : Services F E) where
  open fl use {add, lt, le}

  abbrev pub exit_with_id :
      StrategyConfig F
      → MarketSnapshot F
      → PerpContext F
      → SpotContext
      → Option ℤ
      → Result (ExitPlan F)
  exit_with_id cfg snap perp spot none = err spot_asset_id_missing
  exit_with_id cfg snap perp spot (some id) = sized_exit cfg snap perp spot id

  abbrev pub exit_with_spot :
      StrategyConfig F
      → MarketSnapshot F
      → PerpContext F
      → E
      → Result SpotContext
      → Result (ExitPlan F)
  exit_with_spot cfg snap perp e (err x) = err x
  exit_with_spot cfg snap perp e (ok spot) =
      exit_with_id cfg snap perp spot (sv.spot_asset_id spot.symbol e)

  abbrev pub exit_with_perp :
      StrategyConfig F → MarketSnapshot F → E → Option (PerpContext F) → Result (ExitPlan F)
  exit_with_perp cfg snap e none = err perp_context_missing
  exit_with_perp cfg snap e (some perp) =
      exit_with_spot cfg snap perp e (spot_context sv snap.spot_asset e)

  unfoldable pub plan_exit : StrategyConfig F → MarketSnapshot F → E → Result (ExitPlan F)
  plan_exit cfg snap e = exit_with_perp cfg snap e (sv.perp_context snap.perp_asset e)

  -- Undo the spot leg as far as it has filled and go back to `HEDGE_OK`.
  unfoldable pub back_to_hedge : ExitPlan F → F → Err → World F E → Result (Unit {0}) × World F E
  back_to_hedge plan spot_filled x w =
      let w' =
        if lt nought spot_filled
        then (rollback_spot_with sv plan.spot_id spot_filled plan.spot_rollback_limit
            plan.rollback_is_buy w).1
        else w in
      (err x, apply_event Event.hedge_ok w')

  -- `Apply(EventDone)` and what follows it.
  unfoldable pub finish_exit : MarketSnapshot F → World F E → World F E
  unfolding persist_strategy_snapshot apply_event
  finish_exit snap w =
      let w' = persist_strategy_snapshot sv snap (apply_event Event.done w) in
      set_env (sv.send_alert (exited snap.perp_asset snap.spot_asset) w'.env) w'

  unfoldable pub perp_filled_exit :
      MarketSnapshot F → ExitPlan F → F → F → World F E → Result (Unit {0}) × World F E
  perp_filled_exit snap plan spot_filled perp_filled w =
      if lt (add perp_filled flat_epsilon) plan.perp_size
      then back_to_hedge plan spot_filled perp_exit_unfilled w
      else (ok tt, finish_exit snap w)

  abbrev pub after_perp_exit :
      MarketSnapshot F
      → ExitPlan F
      → F
      → Result (String × F × Bool) × World F E
      → Result (Unit {0}) × World F E
  after_perp_exit snap plan spot_filled (err x, w) = back_to_hedge plan spot_filled x w
  after_perp_exit snap plan spot_filled (ok (perp_order_id, perp_filled, perp_open), w) =
      perp_filled_exit snap plan spot_filled perp_filled
        (cancel_if_open sv perp_open plan.perp_id perp_order_id w)

  unfoldable pub exit_perp_leg :
      MarketSnapshot F → ExitPlan F → String → F → World F E → Result (Unit {0}) × World F E
  exit_perp_leg snap plan perp_cloid spot_filled w =
      if lt nought plan.perp_size
      then after_perp_exit snap plan spot_filled
          (place_and_wait sv (perp_exit_order plan perp_cloid) w)
      else (ok tt, finish_exit snap w)

  unfoldable pub spot_filled_exit :
      MarketSnapshot F → ExitPlan F → String → F → World F E → Result (Unit {0}) × World F E
  spot_filled_exit snap plan perp_cloid spot_filled w =
      if lt (add spot_filled flat_epsilon) plan.spot_size
      then back_to_hedge plan spot_filled spot_exit_unfilled w
      else exit_perp_leg snap plan perp_cloid spot_filled w

  -- A spot order that cannot be placed or watched leaves the state `EXIT`.
  abbrev pub after_spot_exit :
      MarketSnapshot F
      → ExitPlan F
      → String
      → Result (String × F × Bool) × World F E
      → Result (Unit {0}) × World F E
  after_spot_exit snap plan perp_cloid (err x, w) = (err x, w)
  after_spot_exit snap plan perp_cloid (ok (spot_order_id, spot_filled, spot_open), w) =
      spot_filled_exit snap plan perp_cloid spot_filled
        (cancel_if_open sv spot_open plan.spot_id spot_order_id w)

  unfoldable pub place_exit_legs :
      MarketSnapshot F → ExitPlan F → String → String → World F E → Result (Unit {0}) × World F E
  place_exit_legs snap plan spot_cloid perp_cloid w =
      if lt nought plan.spot_size
      then after_spot_exit snap plan perp_cloid
          (place_and_wait sv (spot_exit_order plan spot_cloid) w)
      else exit_perp_leg snap plan perp_cloid nought w

  -- A client order id for a leg that has a size.
  abbrev pub cloid_for : F → E → Result String × E
  cloid_for size e = if lt nought size then sv.new_cloid e else (ok "", e)

  abbrev pub exit_perp_cloid :
      MarketSnapshot F
      → ExitPlan F
      → String
      → World F E
      → Result String × E
      → Result (Unit {0}) × World F E
  exit_perp_cloid snap plan spot_cloid w (err x, e) = (err x, set_env e w)
  exit_perp_cloid snap plan spot_cloid w (ok perp_cloid, e) =
      place_exit_legs snap plan spot_cloid perp_cloid (set_env e w)

  abbrev pub exit_spot_cloid :
      MarketSnapshot F → ExitPlan F → World F E → Result String × E → Result (Unit {0}) × World F E
  exit_spot_cloid snap plan w (err x, e) = (err x, set_env e w)
  exit_spot_cloid snap plan w (ok spot_cloid, e) =
      exit_perp_cloid snap plan spot_cloid w (cloid_for plan.perp_size e)

  abbrev pub carry_out_exit :
      MarketSnapshot F → Result (ExitPlan F) → World F E → Result (Unit {0}) × World F E
  carry_out_exit snap (err x) w = (err x, w)
  carry_out_exit snap (ok plan) w =
      if le plan.spot_size nought && le plan.perp_size nought
      then (ok tt, apply_event Event.done w)
      else exit_spot_cloid snap plan w (cloid_for plan.spot_size w.env)

  abbrev pub report_exit :
      MarketSnapshot F → Result (Unit {0}) × World F E → Result (Unit {0}) × World F E
  report_exit snap (ok u, w) = (ok u, w)
  report_exit snap (err x, w) =
      let w' =
        set_metrics (record w.app.metrics { exit_failed = suc w.app.metrics.exit_failed }) w in
      (err x, set_env (sv.send_alert (exit_failed snap.perp_asset snap.spot_asset x) w'.env) w')

  -- The world in which `exitPosition` plans.
  unfoldable pub exiting : MarketSnapshot F → World F E → World F E
  exiting snap w = persist_strategy_snapshot sv snap (apply_event Event.exit w)

  abbrev pub planned_exit : MarketSnapshot F → World F E → Result (ExitPlan F)
  planned_exit snap w = plan_exit (exiting snap w).app.cfg.strategy snap (exiting snap w).env

  unfoldable pub exit_position : MarketSnapshot F → World F E → Result (Unit {0}) × World F E
  unfolding exiting
  exit_position snap w =
      report_exit snap (carry_out_exit snap (planned_exit snap w) (exiting snap w))
