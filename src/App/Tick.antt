-- ===== src/App/Tick.antt =====
-- internal/app/app.go: `tick`, one round of the strategy loop.
pub mod Frame
pub mod Actions
pub mod Decision
use hyper_basis.Prelude.{
  String, Bool, true, false, not, ◌&&◌, ◌||◌, Option, none, some, List, [], ◌∷◌, str_eq, length,
  if◌then◌else◌,
}
use hyper_basis.Prelude.Int.{ℤ, pos, ltb_ℤ, eqb_ℤ, ◌-ℤ◌, saturate}
use hyper_basis.Prelude.Float.{Float64, nought}
use hyper_basis.Prelude.Result.{Err, Result, ok, err}
use hyper_basis.Prelude.Dict.{lookup}
use hyper_basis.Config.{RiskConfig}
use hyper_basis.Strategy.{State, Event, MarketSnapshot, check_risk, net_expected_carry_usd}
use hyper_basis.App.{
  Services, World, App, AccountState, FundingForecast, OpenOrder, SpotContext, set_env, set_app,
  apply_event, reset_to_idle,
}
use hyper_basis.App.Numbers.{is_exposure_flat}
use hyper_basis.App.Upkeep.{
  or_nought, value_or_nought, persist_strategy_snapshot, entry_cooldown_active,
  hedge_cooldown_active,
}
use hyper_basis.App.Entry.{enter_position}
use hyper_basis.App.Exit.{exit_position}
use hyper_basis.App.Regime.{Regime, update_funding_regime, should_defer_exit_for_funding}
use hyper_basis.App.Hedge.{rebalance_delta, watch_connectivity}
use hyper_basis.App.Receipts.{maybe_log_funding_receipt, refresh_funding_forecast, spot_mid}

-- What a tick has seen before it decides.
pub record View (F : Type 0) : Type 0 where
  pub snap : MarketSnapshot F
  pub orders : List OpenOrder
  pub flat : Bool
  pub market_age : ℤ
  pub account_age : ℤ
  pub now : ℤ
  pub entry_cooldown : Bool
  pub hedge_cooldown : Bool
  pub paused : Bool
  pub forecast : Option (FundingForecast F)
  pub regime : Regime

abbrev pub risk_config : {F : Type 0} → App F → RiskConfig F
risk_config a = elim a.risk_override [ none ↦ a.cfg.risk | some risk ↦ risk ]

module _ {F E : Type 0} ⦃fl : Float64 F⦄ (sv : Services F E) where
  open fl use {le}

  abbrev pub base_or_asset : SpotContext → String → String
  base_or_asset c asset = if str_eq c.base "" then asset else c.base

  abbrev pub snapshot_of : App F → F → F → SpotContext → AccountState F → E → MarketSnapshot F
  snapshot_of a mid perp_mid c acc e =
      let cfg = a.cfg.strategy in
      let has = acc.has_margin_summary in
      let m = acc.margin_summary in
      record {
        perp_asset = cfg.perp_asset;
        spot_asset = cfg.spot_asset;
        spot_mid_price = mid;
        perp_mid_price = perp_mid;
        oracle_price = or_nought (sv.oracle_price cfg.perp_asset e);
        funding_rate = or_nought (sv.funding_rate cfg.perp_asset e);
        volatility = or_nought (sv.volatility cfg.perp_asset e);
        notional_usd = cfg.notional_usd;
        spot_balance = or_nought (lookup (base_or_asset c cfg.spot_asset) acc.spot_balances);
        perp_position = or_nought (lookup cfg.perp_asset acc.perp_position);
        open_order_count = pos (length acc.open_orders);
        margin_ratio = if has then m.margin_ratio else nought;
        health_ratio = if has then m.health_ratio else nought;
        has_margin_ratio = has && m.has_margin_ratio;
        has_health_ratio = has && m.has_health_ratio;
      }

  -- From the perp mid price to `updateFundingRegime`. The clock is read three times.
  unfoldable pub view_at : F → SpotContext → World F E → View F × World F E
  view_at mid c w =
      let a = w.app in
      let cfg = a.cfg.strategy in
      let (perp_r, e1) = sv.mid cfg.perp_asset w.env in
      let perp_mid = value_or_nought perp_r in
      let acc = sv.snapshot e1 in
      let snap = snapshot_of a mid perp_mid c acc e1 in
      let (t1, e2) = sv.now e1 in
      let (t2, e3) = sv.now e2 in
      let (now, e4) = sv.now e3 in
      let (net, cost) = net_expected_carry_usd snap cfg.fee_bps cfg.slippage_bps in
      let (regime, a') =
        update_funding_regime snap.funding_rate cfg.min_funding_rate net cfg.carry_buffer_usd a in
      (
        record {
          snap = snap;
          orders = acc.open_orders;
          flat = is_exposure_flat cfg snap.spot_balance snap.perp_position mid perp_mid;
          market_age = saturate (t1 -ℤ sv.last_mid_update e1);
          account_age = saturate (t2 -ℤ sv.last_update e2);
          now = now;
          entry_cooldown = entry_cooldown_active sv a now;
          hedge_cooldown = hedge_cooldown_active sv a now;
          paused = a.paused;
          forecast = sv.funding_forecast cfg.perp_asset e4;
          regime = regime;
        },
        record { app = a'; env = e4; calls = w.calls },
      )

  abbrev pub no_orders : View F → Bool
  no_orders v = eqb_ℤ v.snap.open_order_count (pos 0)

  -- An entry or exit with no open orders is over.
  abbrev pub settle_orders : View F → State → World F E → World F E
  settle_orders v State.enter w =
      if no_orders v then (if v.flat then reset_to_idle w else apply_event Event.hedge_ok w) else w
  settle_orders v State.exit w =
      if no_orders v then (if v.flat then reset_to_idle w else apply_event Event.hedge_ok w) else w
  settle_orders v s w = w

  abbrev pub settle_hedge : View F → State → World F E → World F E
  settle_hedge v State.hedge_ok w = if v.flat && not v.entry_cooldown then reset_to_idle w else w
  settle_hedge v s w = w

  unfoldable pub settle : View F → World F E → World F E
  settle v w =
      let w' = settle_orders v w.app.strategy.state w in settle_hedge v w'.app.strategy.state w'

  abbrev pub enter_signal : View F → World F E → Bool
  enter_signal v w = v.regime.ok_confirmed && le v.snap.volatility w.app.cfg.strategy.max_volatility

  abbrev pub exit_signal : View F → World F E → Bool
  exit_signal v w = w.app.cfg.strategy.exit_on_funding_dip && v.regime.bad_confirmed

  unfoldable pub act_idle : View F → World F E → Result (Unit {0}) × World F E
  act_idle v w =
      if v.paused
      then (ok tt, w)
      else if not (enter_signal v w)
      then (ok tt, w)
      else if v.entry_cooldown
      then (ok tt, w)
      else enter_position sv v.snap w

  -- An error of the hedge is only logged.
  abbrev pub keep_hedged : View F → World F E → Result (Unit {0}) × World F E
  keep_hedged v w =
      let w' = maybe_log_funding_receipt sv v.now v.snap v.forecast w in
      if v.hedge_cooldown then (ok tt, w') else (ok tt, (rebalance_delta sv v.snap w').1)

  abbrev pub exit_or_defer : View F → ℤ × E → World F E → Result (Unit {0}) × World F E
  exit_or_defer v (now, e) w =
      if should_defer_exit_for_funding w.app.cfg.strategy now v.forecast v.snap.funding_rate
      then keep_hedged v (set_env e w)
      else exit_position sv v.snap (set_env e w)

  unfoldable pub act_hedge_ok : View F → World F E → Result (Unit {0}) × World F E
  act_hedge_ok v w =
      if v.paused
      then (ok tt, w)
      else if exit_signal v w
      then exit_or_defer v (sv.now w.env) w
      else keep_hedged v w

  unfoldable pub act : View F → State → World F E → Result (Unit {0}) × World F E
  act v State.idle w = act_idle v w
  act v State.hedge_ok w = act_hedge_ok v w
  act v s w = (ok tt, w)

  abbrev pub idle_not_ready : View F → State → Bool
  idle_not_ready v State.idle = not v.flat || ltb_ℤ (pos 0) v.snap.open_order_count
  idle_not_ready v s = false

  abbrev pub after_risk : View F → Result (Unit {0}) → World F E → Result (Unit {0}) × World F E
  after_risk v (err x) w = (ok tt, w)
  after_risk v (ok u) w = act v w.app.strategy.state w

  abbrev pub after_connectivity :
      View F → Result (Unit {0}) × World F E → Result (Unit {0}) × World F E
  after_connectivity v (err x, w) = (ok tt, w)
  after_connectivity v (ok u, w) =
      if idle_not_ready v w.app.strategy.state
      then (ok tt, w)
      else after_risk v (check_risk (risk_config w.app) v.snap) w

  unfoldable pub decide : View F → World F E → Result (Unit {0}) × World F E
  decide v w =
      let w' = settle v w in
      after_connectivity v
        (watch_connectivity sv (risk_config w'.app) v.orders v.market_age v.account_age w')

  -- The deferred snapshot is saved after everything else.
  abbrev pub save_after : View F → Result (Unit {0}) × World F E → Result (Unit {0}) × World F E
  save_after v (r, w) = (r, persist_strategy_snapshot sv v.snap w)

  abbrev pub decide_and_save : View F × World F E → Result (Unit {0}) × World F E
  decide_and_save (v, w) = save_after v (decide v w)

  abbrev pub tick_with : Result (F × SpotContext) × E → World F E → Result (Unit {0}) × World F E
  tick_with (err x, e) w = (err x, set_env e w)
  tick_with (ok (mid, c), e) w = decide_and_save (view_at mid c (set_env e w))

  unfoldable pub tick : World F E → Result (Unit {0}) × World F E
  tick w =
      let w' = refresh_funding_forecast sv (set_env (sv.refresh_contexts w.env) w) in
      tick_with (spot_mid sv w'.app.cfg.strategy.spot_asset w'.env) w'
