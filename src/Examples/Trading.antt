-- ===== src/Examples/Trading.antt =====
-- The bot at concrete inputs.
use hyper_basis.Prelude.{ℕ, arith, ◌≡◌, refl, true, false, none, [], ◌∷◌}
use hyper_basis.Prelude.Int.{pos, negsuc, leb_ℤ, seconds}
use hyper_basis.Prelude.Float.{Fixed, fixed, Fixed-IsOrdered}
use hyper_basis.Prelude.Result.{market_stale}
use hyper_basis.Strategy.{State, MarketSnapshot, check_connectivity}
use hyper_basis.App.{App, World, OpenOrder, placed}
use hyper_basis.App.Entry.{enter_position, planned_entry}
use hyper_basis.App.Entry.Ends.{EntryOutcome, state_of}
use hyper_basis.App.Entry.Outcome.{enter_position-EntryOutcome}
use hyper_basis.App.Exit.{exit_position, planned_exit}
use hyper_basis.App.Exit.Ends.{ExitOutcome}
use hyper_basis.App.Exit.Outcome.{exit_position-ExitOutcome}
use hyper_basis.App.Regime.{at_least_one, update_funding_regime}
use hyper_basis.App.Regime.Streaks.{observe, goods, streak, update_funding_regime-streak}
use hyper_basis.App.Hedge.{rebalance_delta, watch_connectivity}
use hyper_basis.App.Hedge.Outcome.{HedgeOutcome, rebalance_delta-HedgeOutcome}
use hyper_basis.App.Hedge.Switch.{
  SwitchOutcome, IsSwitchBalanced, tripped, Cancelled, watch_connectivity-SwitchOutcome,
  watch_connectivity-IsSwitchBalanced,
}
use hyper_basis.App.Tick.{View, settle, decide, tick}
use hyper_basis.App.Tick.Frame.{IsSettled, IsMove, settle-IsSettled}
use hyper_basis.App.Tick.Decision.{DecideOutcome, decide-DecideOutcome, decide-cut_off, tick_paused}
use hyper_basis.Examples.Bench.{bench, idle_app, idle_world, market, risk, units}

-- A bot that holds 2 units of spot against 1 unit of the perp.
abbrev hedged_app : App Fixed
hedged_app = record idle_app { strategy = record { state = State.hedge_ok } }

abbrev hedged_world : World Fixed ℕ
hedged_world = record { app = hedged_app; env = 0; calls = [] }

abbrev held : MarketSnapshot Fixed
held = record market { spot_balance = units 2; perp_position = negsuc 99_999_999 }

abbrev held_view : View Fixed
held_view = record {
  snap = held;
  orders = [];
  flat = false;
  market_age = seconds 10;
  account_age = seconds 10;
  now = seconds 1000;
  entry_cooldown = false;
  hedge_cooldown = false;
  paused = false;
  forecast = none;
  regime = record { is_ok = false; ok_confirmed = false; bad_confirmed = false };
}

abbrev resting : OpenOrder
resting = record { order_id = "7"; cloid = ""; asset_symbol = "BTC"; asset_id = pos 0 }

abbrev stale_view : View Fixed
stale_view = record held_view { orders = resting ∷ []; market_age = seconds 61 }

abbrev paused_world : World Fixed ℕ
paused_world = record { app = record hedged_app { paused = true }; env = 0; calls = [] }

enter_position-EntryOutcome_example :
    EntryOutcome bench
      (planned_entry bench market idle_world)
      []
      (enter_position bench market idle_world)
enter_position-EntryOutcome_example =
    enter_position-EntryOutcome bench Fixed-IsOrdered market idle_world refl

exit_position-ExitOutcome_example :
    ExitOutcome bench
      (planned_exit bench held hedged_world)
      []
      (exit_position bench held hedged_world)
exit_position-ExitOutcome_example =
    exit_position-ExitOutcome bench Fixed-IsOrdered held hedged_world refl

decide-DecideOutcome_example :
    DecideOutcome bench held_view hedged_world (decide bench held_view hedged_world).1
decide-DecideOutcome_example = decide-DecideOutcome bench held_view hedged_world

decide-cut_off_example :
    let w' = (decide bench stale_view hedged_world).1 in
    (w'.app ≡ tripped bench (settle bench stale_view hedged_world).app)
    × Cancelled bench (resting ∷ []) [] w'.calls
    × (placed w'.calls ≡ [])
unfolding check_connectivity
decide-cut_off_example = decide-cut_off bench stale_view hedged_world market_stale refl

tick_paused_example : placed (tick bench paused_world).1.calls ≡ []
tick_paused_example = tick_paused bench paused_world refl

settle-IsSettled_example :
    IsSettled bench held_view (state_of (settle bench held_view hedged_world))
    × IsMove bench held_view State.hedge_ok (state_of (settle bench held_view hedged_world))
    × (settle bench held_view (settle bench held_view hedged_world)
        ≡ settle bench held_view hedged_world)
settle-IsSettled_example = settle-IsSettled bench held_view hedged_world

rebalance_delta-HedgeOutcome_example :
    HedgeOutcome bench held hedged_world (rebalance_delta bench held hedged_world)
rebalance_delta-HedgeOutcome_example = rebalance_delta-HedgeOutcome bench held hedged_world

watch_connectivity-SwitchOutcome_example :
    SwitchOutcome bench
      (check_connectivity risk (seconds 61) (seconds 10))
      idle_world
      (watch_connectivity bench risk (resting ∷ []) (seconds 61) (seconds 10) idle_world)
watch_connectivity-SwitchOutcome_example =
    watch_connectivity-SwitchOutcome bench risk (resting ∷ []) (seconds 61) (seconds 10) idle_world

watch_connectivity-IsSwitchBalanced_example :
    IsSwitchBalanced
      (watch_connectivity bench risk (resting ∷ []) (seconds 61) (seconds 10) idle_world).1.app
watch_connectivity-IsSwitchBalanced_example =
    watch_connectivity-IsSwitchBalanced bench risk (resting ∷ []) (seconds 61) (seconds 10)
      idle_world refl

-- Two good readings in a row confirm an entry with two confirmations.
update_funding_regime-streak_example :
    let r =
      (update_funding_regime
        (pos 5000)
        (pos 1000)
        (units 1)
        (pos 0)
        (observe (pos 1000) (pos 0) ((pos 5000, units 1) ∷ []) idle_app)).0 in
    let seen = goods (pos 1000) (pos 0) ((pos 5000, units 1) ∷ (pos 5000, units 1) ∷ []) in
    (r.ok_confirmed ≡ leb_ℤ (at_least_one (pos 2)) (pos (streak true seen)))
    × (r.bad_confirmed ≡ leb_ℤ (at_least_one (pos 2)) (pos (streak false seen)))
update_funding_regime-streak_example =
    update_funding_regime-streak (pos 1000) (pos 0) (pos 5000) (units 1) ((pos 5000, units 1) ∷ [])
      idle_app refl refl (omega arith)
