-- ===== src/App/Hedge.antt =====
-- internal/app/app.go: `rebalanceDelta`, and the connectivity kill switch with the cancellation of
-- open orders.
pub mod Outcome
pub mod Switch
use hyper_basis.Prelude.{
  suc, String, Bool, true, false, not, ◌&&◌, ◌||◌, Option, none, some, List, [], ◌∷◌, str_eq,
  if◌then◌else◌,
}
use hyper_basis.Prelude.Int.{ℤ, pos, ltb_ℤ, eqb_ℤ}
use hyper_basis.Prelude.Float.{Float64, nought}
use hyper_basis.Prelude.Result.{
  Err, Result, ok, err, price_reference_missing, perp_context_missing, hedge_size_zero,
  hedge_limit_invalid,
}
use hyper_basis.Config.{StrategyConfig, RiskConfig}
use hyper_basis.Strategy.{MarketSnapshot, check_connectivity}
use hyper_basis.Exec.{Order, Cancel}
use hyper_basis.App.{
  Services, World, App, OpenOrder, PerpContext, place, cancel, connectivity_lost, set_env, set_app,
  set_metrics, orders_placed_inc, orders_failed_inc,
}
use hyper_basis.App.Numbers.{limit_price_with_offset, round_size}
use hyper_basis.App.Upkeep.{start_hedge_cooldown}

module _ {F : Type 0} ⦃fl : Float64 F⦄ where
  open fl use {add, mul, abs, lt, le, eq}

  -- The oracle price, or the first mid price that is not 0.
  abbrev pub price_reference : MarketSnapshot F → F
  price_reference snap =
      let first = if eq snap.oracle_price nought then snap.perp_mid_price else snap.oracle_price in
      if eq first nought then snap.spot_mid_price else first

  abbrev pub delta_base : MarketSnapshot F → F
  delta_base snap = add snap.spot_balance snap.perp_position

  abbrev pub delta_usd : MarketSnapshot F → F
  delta_usd snap = mul (delta_base snap) (price_reference snap)

  abbrev pub hedge_is_buy : MarketSnapshot F → Bool
  hedge_is_buy snap = lt (delta_usd snap) nought

  abbrev pub hedge_reduces : MarketSnapshot F → Bool
  hedge_reduces snap =
      (hedge_is_buy snap && lt snap.perp_position nought)
      || (not (hedge_is_buy snap) && lt nought snap.perp_position)

  abbrev pub hedge_limit : StrategyConfig F → MarketSnapshot F → PerpContext F → F
  hedge_limit cfg snap perp =
      limit_price_with_offset
        (if eq snap.perp_mid_price nought then snap.spot_mid_price else snap.perp_mid_price)
        (hedge_is_buy snap) false perp.sz_decimals cfg.ioc_price_bps

  abbrev pub hedge_size : MarketSnapshot F → PerpContext F → F
  hedge_size snap perp = round_size (abs (delta_base snap)) perp.sz_decimals

  abbrev pub hedge_order : StrategyConfig F → MarketSnapshot F → PerpContext F → String → Order F
  hedge_order cfg snap perp cloid = record {
    asset = perp.index;
    is_buy = hedge_is_buy snap;
    size = hedge_size snap perp;
    limit_price = hedge_limit cfg snap perp;
    reduce_only = hedge_reduces snap;
    client_order_id = cloid;
    tif = "Ioc";
  }

  -- The early returns before the perp context is read: `true` goes on.
  abbrev pub wants_hedge : StrategyConfig F → MarketSnapshot F → Bool
  wants_hedge cfg snap =
      not (le (abs (delta_usd snap)) cfg.delta_band_usd)
      && not (lt (abs (delta_usd snap)) cfg.min_exposure_usd)

module _ {F E : Type 0} ⦃fl : Float64 F⦄ (sv : Services F E) where
  open fl use {le, eq}

  abbrev pub after_hedge : Result String × E → World F E → Result (Unit {0}) × World F E
  after_hedge (err x, e) w = (err x, orders_failed_inc (set_env e w))
  after_hedge (ok id, e) w =
      let w' = orders_placed_inc (set_env e w) in
      let (now, e') = sv.now w'.env in
      (ok tt, set_env e' (set_app (start_hedge_cooldown sv w'.app now) w'))

  abbrev pub send_hedge : Order F → World F E → Result (Unit {0}) × World F E
  send_hedge order w =
      after_hedge (sv.place_order order w.env)
        (record { app = w.app; env = w.env; calls = place order ∷ w.calls })

  abbrev pub hedge_with_cloid :
      MarketSnapshot F
      → PerpContext F
      → World F E
      → Result String × E
      → Result (Unit {0}) × World F E
  hedge_with_cloid snap perp w (err x, e) = (err x, set_env e w)
  hedge_with_cloid snap perp w (ok cloid, e) =
      send_hedge (hedge_order w.app.cfg.strategy snap perp cloid) (set_env e w)

  abbrev pub hedge_with_perp :
      MarketSnapshot F → World F E → Option (PerpContext F) → Result (Unit {0}) × World F E
  hedge_with_perp snap w none = (err perp_context_missing, w)
  hedge_with_perp snap w (some perp) =
      if le (hedge_size snap perp) nought
      then (err hedge_size_zero, w)
      else if le (hedge_limit w.app.cfg.strategy snap perp) nought
      then (err hedge_limit_invalid, w)
      else hedge_with_cloid snap perp w (sv.new_cloid w.env)

  unfoldable pub rebalance_delta : MarketSnapshot F → World F E → Result (Unit {0}) × World F E
  rebalance_delta snap w =
      if le w.app.cfg.strategy.delta_band_usd nought
      then (ok tt, w)
      else if ltb_ℤ (pos 0) snap.open_order_count
      then (ok tt, w)
      else if eq (price_reference snap) nought
      then (err price_reference_missing, w)
      else if wants_hedge w.app.cfg.strategy snap
      then hedge_with_perp snap w (sv.perp_context snap.perp_asset w.env)
      else (ok tt, w)

  -- `OpenOrderRefs` leaves out an order with no id of either kind.
  abbrev pub is_ref : OpenOrder → Bool
  is_ref o = not (str_eq o.order_id "" && str_eq o.cloid "")

  abbrev pub id_or_spot : String → E → Option ℤ → ℤ
  id_or_spot symbol e (some id) = id
  id_or_spot symbol e none = elim (sv.spot_asset_id symbol e) [ some id ↦ id | none ↦ pos 0 ]

  abbrev pub asset_of : OpenOrder → E → ℤ
  asset_of o e =
      if eqb_ℤ o.asset_id (pos 0) && not (str_eq o.asset_symbol "")
      then id_or_spot o.asset_symbol e (sv.perp_asset_id o.asset_symbol e)
      else o.asset_id

  abbrev pub cancel_ref : OpenOrder → World F E → World F E
  cancel_ref o w =
      let asset = asset_of o w.env in
      if str_eq o.order_id "" || eqb_ℤ asset (pos 0)
      then w
      else (let c : Cancel = record { asset = asset; order_id = o.order_id } in
          record { app = w.app; env = (sv.cancel_order c w.env).1; calls = cancel c ∷ w.calls })

  unfoldable pub cancel_open_orders : List OpenOrder → World F E → World F E
  cancel_open_orders [] w = w
  cancel_open_orders (o ∷ os) w = cancel_open_orders os (if is_ref o then cancel_ref o w else w)

  abbrev pub restored : World F E → World F E
  restored w =
      if w.app.kill_switch_active
      then (let m = w.app.metrics in
          set_app
            (record w.app {
              kill_switch_active = false;
              metrics = record m { kill_switch_restored = suc m.kill_switch_restored };
            })
            w)
      else w

  abbrev pub engaged : Err → World F E → World F E
  engaged x w =
      if w.app.kill_switch_active
      then w
      else (let m = w.app.metrics in
          record {
            app = record w.app {
              kill_switch_active = true;
              metrics = record m { kill_switch_engaged = suc m.kill_switch_engaged };
            };
            env = sv.send_alert (connectivity_lost x) w.env;
            calls = w.calls;
          })

  abbrev pub switched :
      List OpenOrder → Result (Unit {0}) → World F E → Result (Unit {0}) × World F E
  switched os (ok u) w = (ok u, restored w)
  switched os (err x) w = (err x, cancel_open_orders os (engaged x w))

  -- `App.checkConnectivity`
  unfoldable pub watch_connectivity :
      RiskConfig F → List OpenOrder → ℤ → ℤ → World F E → Result (Unit {0}) × World F E
  watch_connectivity risk os market_age account_age w =
      switched os (check_connectivity risk market_age account_age) w
