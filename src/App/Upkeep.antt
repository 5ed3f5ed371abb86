-- ===== src/App/Upkeep.antt =====
-- internal/app/app.go: the snapshot of the strategy, the cooldowns, the USDC transfer before an
-- entry and the contexts of the spot asset.
pub mod Cooldown
use Prim.Native.String.{◌++◌ as append}
use text.Mathlib.Text.{find?}
use hyper_basis.Prelude.{String, Bool, true, false, ◌&&◌, Option, none, some, ◌∷◌, if◌then◌else◌}
use hyper_basis.Prelude.Int.{ℤ, pos, ltb_ℤ, leb_ℤ, ◌+ℤ◌, unix_milli}
use hyper_basis.Prelude.Float.{Float64, nought}
use hyper_basis.Prelude.Result.{Result, ok, err, spot_asset_missing}
use hyper_basis.Prelude.Dict.{lookup}
use hyper_basis.Strategy.{State, MarketSnapshot}
use hyper_basis.App.{
  Services, World, App, transfer, SpotContext, AccountState, StrategySnapshot, set_env,
}
use hyper_basis.App.Numbers.{UsdcTransferPlan, plan_usdc_transfer, flat_epsilon}

abbrev pub state_name : State → String
state_name State.idle = "IDLE"
state_name State.enter = "ENTER"
state_name State.hedge_ok = "HEDGE_OK"
state_name State.exit = "EXIT"

-- A missing key of a map reads as 0, and an error's value too.
abbrev pub or_nought : {F : Type 0} ⦃fl : Float64 F⦄ → Option F → F
or_nought none = nought
or_nought (some x) = x

abbrev pub value_or_nought : {F : Type 0} ⦃fl : Float64 F⦄ → Result F → F
value_or_nought (ok x) = x
value_or_nought (err _) = nought

-- `strings.Contains(asset, "/")`
abbrev pub has_slash : String → Bool
has_slash asset = elim (find? asset "/") [ none ↦ false | some i ↦ true ]

module _ {F E : Type 0} (sv : Services F E) where
  abbrev pub snapshot_of : MarketSnapshot F → State → ℤ → StrategySnapshot F
  snapshot_of snap state now = record {
    action = state_name state;
    spot_asset = snap.spot_asset;
    perp_asset = snap.perp_asset;
    spot_mid_price = snap.spot_mid_price;
    perp_mid_price = snap.perp_mid_price;
    spot_balance = snap.spot_balance;
    perp_position = snap.perp_position;
    open_orders = snap.open_order_count;
    updated_at_ms = unix_milli now;
  }

  -- The flag `snapshotPersistWarned` after a save.
  abbrev pub is_failed : Result (Unit {0}) → Bool
  is_failed (ok _) = false
  is_failed (err _) = true

  unfoldable pub persist_strategy_snapshot : MarketSnapshot F → World F E → World F E
  persist_strategy_snapshot snap w =
      let (now, e) = sv.now w.env in
      let (r, e') = sv.save_strategy_snapshot (snapshot_of snap w.app.strategy.state now) e in
      record {
        app = record w.app { snapshot_persist_warned = is_failed r };
        env = e';
        calls = w.calls;
      }

  unfoldable pub entry_cooldown_active : App F → ℤ → Bool
  entry_cooldown_active a now =
      if leb_ℤ a.cfg.strategy.entry_cooldown (pos 0)
      then false
      else ltb_ℤ now a.entry_cooldown_until

  unfoldable pub start_entry_cooldown : App F → ℤ → App F
  start_entry_cooldown a now =
      if leb_ℤ a.cfg.strategy.entry_cooldown (pos 0)
      then a
      else record a { entry_cooldown_until = now +ℤ a.cfg.strategy.entry_cooldown }

  unfoldable pub hedge_cooldown_active : App F → ℤ → Bool
  hedge_cooldown_active a now =
      if leb_ℤ a.cfg.strategy.hedge_cooldown (pos 0)
      then false
      else ltb_ℤ now a.hedge_cooldown_until

  unfoldable pub start_hedge_cooldown : App F → ℤ → App F
  start_hedge_cooldown a now =
      if leb_ℤ a.cfg.strategy.hedge_cooldown (pos 0)
      then a
      else record a { hedge_cooldown_until = now +ℤ a.cfg.strategy.hedge_cooldown }

  abbrev pub second_context : String → E → Option SpotContext
  second_context asset e =
      if has_slash asset then none else sv.spot_context (append asset "/USDC") e

  abbrev pub context_result : Option SpotContext → Result SpotContext
  context_result none = err spot_asset_missing
  context_result (some c) = ok c

  unfoldable pub spot_context : String → E → Result SpotContext
  spot_context asset e = elim (sv.spot_context asset e) [
    | some c ↦ ok c
    | none ↦ context_result (second_context asset e)
  ]

  -- The warning about a failed reconciliation is only logged.
  unfoldable pub reconcile_account : World F E → World F E
  reconcile_account w = set_env (sv.reconcile w.env).1 w

module _ {F E : Type 0} ⦃fl : Float64 F⦄ (sv : Services F E) where
  open fl use {le, lt}

  abbrev pub ignore_state : Result (AccountState F) → Result (Unit {0})
  ignore_state (ok _) = ok tt
  ignore_state (err x) = err x

  abbrev pub reconciled : World F E → Result (Unit {0}) × World F E
  reconciled w = let (r, e) = sv.reconcile w.env in (ignore_state r, set_env e w)

  abbrev pub after_transfer : Result (Unit {0}) × World F E → Result (Unit {0}) × World F E
  after_transfer (err x, w) = (err x, w)
  after_transfer (ok _, w) = reconciled w

  abbrev pub transfer_usdc : F → Bool → World F E → Result (Unit {0}) × World F E
  transfer_usdc amount to_perp w =
      let (r, e) = sv.usd_class_transfer amount to_perp w.env in
      (r, record { app = w.app; env = e; calls = transfer amount to_perp ∷ w.calls })

  abbrev pub carry_out : Result (UsdcTransferPlan F) → World F E → Result (Unit {0}) × World F E
  carry_out (err x) w = (err x, w)
  carry_out (ok plan) w =
      if le plan.amount flat_epsilon
      then (ok tt, w)
      else after_transfer (transfer_usdc plan.amount plan.to_perp w)

  abbrev pub perp_usdc : AccountState F → F
  perp_usdc st = if st.has_margin_summary then st.margin_summary.account_value else nought

  abbrev pub with_balances :
      F → F → World F E → Result (AccountState F) × E → Result (Unit {0}) × World F E
  with_balances spot_required perp_required w (err x, e) = (err x, set_env e w)
  with_balances spot_required perp_required w (ok st, e) =
      carry_out
        (plan_usdc_transfer (or_nought (lookup "USDC" st.spot_balances)) (perp_usdc st)
          spot_required perp_required)
        (set_env e w)

  unfoldable pub ensure_entry_usdc : F → F → World F E → Result (Unit {0}) × World F E
  ensure_entry_usdc spot_required perp_required w =
      if le spot_required nought && le perp_required nought
      then (ok tt, w)
      else with_balances spot_required perp_required w (sv.reconcile w.env)
