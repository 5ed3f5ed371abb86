-- ===== src/App/Entry.antt =====
-- internal/app/app.go: `enterPosition`, from the signal to the hedged position or the rollback.
pub mod Ends
pub mod Outcome
use hyper_basis.Prelude.{ℕ, suc, String, Bool, true, false, ◌||◌, Option, none, some, if◌then◌else◌}
use hyper_basis.Prelude.Int.{ℤ}
use hyper_basis.Prelude.Float.{Float64, nought}
use hyper_basis.Prelude.Result.{
  Err, Result, ok, err, perp_context_missing, spot_asset_id_missing, invalid_size_or_price,
  spot_entry_unfilled, perp_size_zero, perp_entry_unfilled,
}
use hyper_basis.Config.{StrategyConfig}
use hyper_basis.Strategy.{Event, MarketSnapshot}
use hyper_basis.Exec.{Order}
use hyper_basis.App.{
  Services, World, Alert, entry_failed, entered, PerpContext, SpotContext, set_env, set_app,
  set_metrics, orders_placed_inc, orders_failed_inc, apply_event, reset_to_idle,
}
use hyper_basis.App.Numbers.{limit_price_with_offset, round_size}
use hyper_basis.App.Fills.{place_and_wait, cancel_if_open, rollback_spot}
use hyper_basis.App.Upkeep.{
  persist_strategy_snapshot, start_entry_cooldown, spot_context, reconcile_account,
  ensure_entry_usdc,
}

-- The values that `enterPosition` derives before it places anything.
pub record EntryPlan (F : Type 0) : Type 0 where
  pub perp_id : ℤ
  pub spot_id : ℤ
  pub perp_sz_decimals : ℤ
  pub spot_limit : F
  pub perp_limit : F
  pub spot_rollback_limit : F
  pub spot_size : F

abbrev pub spot_entry_order : {F : Type 0} → EntryPlan F → String → Order F
spot_entry_order plan cloid = record {
  asset = plan.spot_id;
  is_buy = true;
  size = plan.spot_size;
  limit_price = plan.spot_limit;
  reduce_only = false;
  client_order_id = cloid;
  tif = "Ioc";
}

abbrev pub perp_entry_order : {F : Type 0} → EntryPlan F → String → F → Order F
perp_entry_order plan cloid size = record {
  asset = plan.perp_id;
  is_buy = false;
  size = size;
  limit_price = plan.perp_limit;
  reduce_only = false;
  client_order_id = cloid;
  tif = "Ioc";
}

module _ {F : Type 0} ⦃fl : Float64 F⦄ where
  open fl use {lt, eq}

  abbrev pub entry_price_ref : MarketSnapshot F → F
  entry_price_ref snap =
      let price_ref =
        if lt nought snap.oracle_price then snap.oracle_price else snap.spot_mid_price in
      if eq price_ref nought then snap.perp_mid_price else price_ref

  -- The references of the two limits: a mid price of 0 gives way to the other one.
  abbrev pub spot_ref : MarketSnapshot F → F
  spot_ref snap = if eq snap.spot_mid_price nought then snap.perp_mid_price else snap.spot_mid_price

  abbrev pub perp_ref : MarketSnapshot F → F
  perp_ref snap = if eq snap.perp_mid_price nought then snap.spot_mid_price else snap.perp_mid_price

module _ {F E : Type 0} ⦃fl : Float64 F⦄ (sv : Services F E) where
  open fl use {mul, div, sub, lt, le}

  abbrev pub sized :
      StrategyConfig F → MarketSnapshot F → PerpContext F → SpotContext → ℤ → Result (EntryPlan F)
  sized cfg snap perp spot spot_id =
      let bps = cfg.ioc_price_bps in
      let decimals = spot.base_sz_decimals in
      let spot_limit = limit_price_with_offset (spot_ref snap) true true decimals bps in
      let perp_limit = limit_price_with_offset (perp_ref snap) false false perp.sz_decimals bps in
      let spot_size = round_size (div snap.notional_usd (entry_price_ref snap)) decimals in
      if le spot_size nought || le spot_limit nought || le perp_limit nought
      then err invalid_size_or_price
      else ok (record {
        perp_id = perp.index;
        spot_id = spot_id;
        perp_sz_decimals = perp.sz_decimals;
        spot_limit = spot_limit;
        perp_limit = perp_limit;
        spot_rollback_limit = limit_price_with_offset (spot_ref snap) false true decimals bps;
        spot_size = spot_size;
      })

  abbrev pub with_spot_id :
      StrategyConfig F
      → MarketSnapshot F
      → PerpContext F
      → SpotContext
      → Option ℤ
      → Result (EntryPlan F)
  with_spot_id cfg snap perp spot none = err spot_asset_id_missing
  with_spot_id cfg snap perp spot (some id) = sized cfg snap perp spot id

  abbrev pub with_spot :
      StrategyConfig F
      → MarketSnapshot F
      → PerpContext F
      → E
      → Result SpotContext
      → Result (EntryPlan F)
  with_spot cfg snap perp e (err x) = err x
  with_spot cfg snap perp e (ok spot) =
      with_spot_id cfg snap perp spot (sv.spot_asset_id spot.symbol e)

  abbrev pub with_perp :
      StrategyConfig F → MarketSnapshot F → E → Option (PerpContext F) → Result (EntryPlan F)
  with_perp cfg snap e none = err perp_context_missing
  with_perp cfg snap e (some perp) = with_spot cfg snap perp e (spot_context sv snap.spot_asset e)

  unfoldable pub plan_entry : StrategyConfig F → MarketSnapshot F → E → Result (EntryPlan F)
  plan_entry cfg snap e = with_perp cfg snap e (sv.perp_context snap.perp_asset e)

  -- Sell the spot fill again and give up: a rollback that fails is only logged.
  unfoldable pub unwind_entry : EntryPlan F → F → Err → World F E → Result (Unit {0}) × World F E
  unwind_entry plan spot_filled x w = (
    err x,
    reset_to_idle (rollback_spot sv plan.spot_id spot_filled plan.spot_rollback_limit w).1,
  )

  -- The end of a successful entry, from `Apply(EventHedgeOK)` on.
  unfoldable pub finish_entry : MarketSnapshot F → F → World F E → World F E
  unfolding start_entry_cooldown reconcile_account persist_strategy_snapshot apply_event
  finish_entry snap perp_filled w =
      let w1 = persist_strategy_snapshot sv snap (apply_event Event.hedge_ok w) in
      let (now, e) = sv.now w1.env in
      let w2 = reconcile_account sv (set_env e (set_app (start_entry_cooldown sv w1.app now) w1)) in
      set_env (sv.send_alert (entered snap.perp_asset snap.spot_asset perp_filled) w2.env) w2

  abbrev pub sell_residual : EntryPlan F → F → World F E → World F E
  sell_residual plan residual w =
      if lt nought residual
      then (rollback_spot sv plan.spot_id residual plan.spot_rollback_limit w).1
      else w

  unfoldable pub perp_done :
      MarketSnapshot F → EntryPlan F → F → F → World F E → Result (Unit {0}) × World F E
  perp_done snap plan spot_filled perp_filled w =
      if le perp_filled nought then unwind_entry plan spot_filled perp_entry_unfilled w else (
        ok tt,
        finish_entry snap perp_filled (sell_residual plan (sub spot_filled perp_filled) w),
      )

  abbrev pub after_perp :
      MarketSnapshot F
      → EntryPlan F
      → F
      → Result (String × F × Bool) × World F E
      → Result (Unit {0}) × World F E
  after_perp snap plan spot_filled (err x, w) =
      unwind_entry plan spot_filled x (orders_failed_inc w)
  after_perp snap plan spot_filled (ok (perp_order_id, perp_filled, perp_open), w) =
      perp_done snap plan spot_filled perp_filled
        (cancel_if_open sv perp_open plan.perp_id perp_order_id (orders_placed_inc w))

  unfoldable pub perp_leg :
      MarketSnapshot F → EntryPlan F → String → F → World F E → Result (Unit {0}) × World F E
  perp_leg snap plan perp_cloid spot_filled w =
      let perp_size = round_size spot_filled plan.perp_sz_decimals in
      if le perp_size nought
      then unwind_entry plan spot_filled perp_size_zero w
      else after_perp snap plan spot_filled
          (place_and_wait sv (perp_entry_order plan perp_cloid perp_size) w)

  unfoldable pub spot_done :
      MarketSnapshot F → EntryPlan F → String → F → World F E → Result (Unit {0}) × World F E
  spot_done snap plan perp_cloid spot_filled w =
      if le spot_filled nought
      then (err spot_entry_unfilled, reset_to_idle w)
      else perp_leg snap plan perp_cloid spot_filled w

  abbrev pub after_spot :
      MarketSnapshot F
      → EntryPlan F
      → String
      → Result (String × F × Bool) × World F E
      → Result (Unit {0}) × World F E
  after_spot snap plan perp_cloid (err x, w) = (err x, reset_to_idle (orders_failed_inc w))
  after_spot snap plan perp_cloid (ok (spot_order_id, spot_filled, spot_open), w) =
      spot_done snap plan perp_cloid spot_filled
        (cancel_if_open sv spot_open plan.spot_id spot_order_id (orders_placed_inc w))

  unfoldable pub place_entry_legs :
      MarketSnapshot F → EntryPlan F → String → String → World F E → Result (Unit {0}) × World F E
  place_entry_legs snap plan spot_cloid perp_cloid w =
      after_spot snap plan perp_cloid (place_and_wait sv (spot_entry_order plan spot_cloid) w)

  abbrev pub with_perp_cloid :
      MarketSnapshot F
      → EntryPlan F
      → String
      → World F E
      → Result String × E
      → Result (Unit {0}) × World F E
  with_perp_cloid snap plan spot_cloid w (err x, e) = (err x, set_env e w)
  with_perp_cloid snap plan spot_cloid w (ok perp_cloid, e) =
      place_entry_legs snap plan spot_cloid perp_cloid (set_env e w)

  abbrev pub with_spot_cloid :
      MarketSnapshot F → EntryPlan F → World F E → Result String × E → Result (Unit {0}) × World F E
  with_spot_cloid snap plan w (err x, e) = (err x, set_env e w)
  with_spot_cloid snap plan w (ok spot_cloid, e) =
      with_perp_cloid snap plan spot_cloid w (sv.new_cloid e)

  abbrev pub after_usdc :
      MarketSnapshot F → EntryPlan F → Result (Unit {0}) × World F E → Result (Unit {0}) × World F E
  after_usdc snap plan (err x, w) = (err x, w)
  after_usdc snap plan (ok _, w) = with_spot_cloid snap plan w (sv.new_cloid w.env)

  abbrev pub carry_out_entry :
      MarketSnapshot F → Result (EntryPlan F) → World F E → Result (Unit {0}) × World F E
  carry_out_entry snap (err x) w = (err x, w)
  carry_out_entry snap (ok plan) w = after_usdc snap plan (
      ensure_entry_usdc sv (mul plan.spot_size plan.spot_limit) (mul plan.spot_size plan.perp_limit)
        w)

  -- The deferred function: an error is counted and reported.
  abbrev pub report_entry :
      MarketSnapshot F → Result (Unit {0}) × World F E → Result (Unit {0}) × World F E
  report_entry snap (ok u, w) = (ok u, w)
  report_entry snap (err x, w) =
      let w' =
        set_metrics (record w.app.metrics { entry_failed = suc w.app.metrics.entry_failed }) w in
      (err x, set_env (sv.send_alert (entry_failed snap.perp_asset snap.spot_asset x) w'.env) w')

  -- The world in which `enterPosition` plans: the event is applied and the snapshot saved.
  unfoldable pub entering : MarketSnapshot F → World F E → World F E
  entering snap w = persist_strategy_snapshot sv snap (apply_event Event.enter w)

  abbrev pub planned_entry : MarketSnapshot F → World F E → Result (EntryPlan F)
  planned_entry snap w = plan_entry (entering snap w).app.cfg.strategy snap (entering snap w).env

  unfoldable pub enter_position : MarketSnapshot F → World F E → Result (Unit {0}) × World F E
  unfolding entering
  enter_position snap w =
      report_entry snap (carry_out_entry snap (planned_entry snap w) (entering snap w))
