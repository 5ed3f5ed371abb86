-- ===== src/Examples/Upkeep.antt =====
-- The waiting, the cooldowns, the receipts and the restart of the bot at concrete inputs.
use hyper_basis.Prelude.{ℕ, ◌≡◌, refl, ◌⊎◌, ◌↔◌, ◌&&◌, ◌∷◌, [], true, some}
use hyper_basis.Prelude.Int.{pos, ltb_ℤ, ◌+ℤ◌, ◌≤ℤ◌, seconds}
use hyper_basis.Prelude.Float.{Fixed, fixed}
use hyper_basis.Strategy.{State, MarketSnapshot}
use hyper_basis.App.{World, AccountState, FundingForecast}
use hyper_basis.App.Upkeep.{
  snapshot_of, entry_cooldown_active, start_entry_cooldown, hedge_cooldown_active,
  start_hedge_cooldown,
}
use hyper_basis.App.Upkeep.Cooldown.{start_cooldown-active}
use hyper_basis.App.Receipts.{maybe_log_funding_receipt}
use hyper_basis.App.Receipts.Newest.{maybe_log-last}
use hyper_basis.App.Restore.{restored_flat, restore_strategy_state}
use hyper_basis.App.Restore.Saved.{restore-saved}
use hyper_basis.Examples.Bench.{bench, idle_app, holdings, market, units}

abbrev hourly : FundingForecast Fixed
hourly = record {
  rate = pos 5000;
  has_rate = true;
  next_funding = seconds 1300;
  has_next = true;
  interval = seconds 3600;
}

abbrev short_perp : MarketSnapshot Fixed
short_perp = record market { perp_position = units 2 }

abbrev paid_world : World Fixed ℕ
paid_world = record {
  app = record idle_app { last_funding_receipt_at = seconds 700 };
  env = 0;
  calls = [];
}

-- The account of a bot that has bought 2 units.
abbrev exposed_account : AccountState Fixed
exposed_account = record holdings { spot_balances = ("UBTC", units 2) ∷ [] }

start_cooldown-active_example :
    (entry_cooldown_active bench (start_entry_cooldown bench idle_app (seconds 100)) (seconds 120)
      ≡ (ltb_ℤ (pos 0) (seconds 30) && ltb_ℤ (seconds 120) (seconds 100 +ℤ seconds 30)))
    × (hedge_cooldown_active bench (start_hedge_cooldown bench idle_app (seconds 100)) (seconds 120)
        ≡ (ltb_ℤ (pos 0) (seconds 30) && ltb_ℤ (seconds 120) (seconds 100 +ℤ seconds 30)))
    × (hedge_cooldown_active bench (start_entry_cooldown bench idle_app (seconds 100)) (seconds 120)
        ≡ hedge_cooldown_active bench idle_app (seconds 120))
    × (entry_cooldown_active bench (start_hedge_cooldown bench idle_app (seconds 100)) (seconds 120)
        ≡ entry_cooldown_active bench idle_app (seconds 120))
start_cooldown-active_example = start_cooldown-active bench idle_app (seconds 100) (seconds 120)

maybe_log-last_example :
    seconds 700
    ≤ℤ (maybe_log_funding_receipt bench
        (seconds 1400)
        short_perp
        (some hourly)
        paid_world).app.last_funding_receipt_at
maybe_log-last_example =
    maybe_log-last bench (seconds 1400) short_perp (some hourly) paid_world refl

restore-saved_example :
    let saved = snapshot_of bench market State.enter (seconds 900) in
    let restored =
      (restore_strategy_state bench exposed_account (some saved) 0 idle_app).strategy.state in
    ((restored ≡ State.idle) ↔ (restored_flat bench exposed_account saved idle_app 0 ≡ true))
    × ((restored ≡ State.enter)
        ⊎ (restored_flat bench exposed_account saved idle_app 0 ≡ true)
        ⊎ ((State.enter ≡ State.idle) × (restored ≡ State.hedge_ok)))
restore-saved_example =
    restore-saved bench exposed_account market State.enter (seconds 900) 0 idle_app
