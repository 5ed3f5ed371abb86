-- ===== src/Examples/Bench.antt =====
-- A concrete environment: an exchange that fills every order in full, numbers with eight decimals,
-- and the settings and data of one market.
use hyper_basis.Prelude.{ℕ, ◌+◌, ◌*◌, true, false, none, some, [], ◌∷◌}
use hyper_basis.Prelude.Int.{pos, seconds, zero_time}
use hyper_basis.Prelude.Float.{Fixed, fixed}
use hyper_basis.Prelude.Result.{ok}
use hyper_basis.Config.{Config, StrategyConfig, RiskConfig}
use hyper_basis.Strategy.{State, MarketSnapshot}
use hyper_basis.App.{App, AccountState, Services, World}

-- n units
abbrev pub units : ℕ → Fixed
units n = pos (n * 100_000_000)

abbrev pub risk : RiskConfig Fixed
risk = record {
  max_notional_usd = units 1000;
  max_open_orders = pos 3;
  min_margin_ratio = pos 0;
  min_health_ratio = pos 0;
  max_market_age = seconds 60;
  max_account_age = seconds 60;
}

abbrev pub settings : StrategyConfig Fixed
settings = record {
  asset = "";
  perp_asset = "BTC";
  spot_asset = "UBTC";
  notional_usd = units 200;
  min_funding_rate = pos 1000;
  max_volatility = units 1;
  fee_bps = pos 0;
  slippage_bps = pos 0;
  ioc_price_bps = units 10;
  carry_buffer_usd = pos 0;
  funding_confirmations = pos 2;
  funding_dip_confirmations = pos 2;
  delta_band_usd = units 5;
  min_exposure_usd = units 10;
  entry_interval = seconds 30;
  entry_cooldown = seconds 30;
  hedge_cooldown = seconds 30;
  spot_reconcile_interval = seconds 300;
  entry_timeout = seconds 5;
  entry_poll_interval = seconds 1;
  exit_on_funding_dip = true;
  exit_funding_guard = seconds 600;
  exit_funding_guard_enabled = none;
  candle_interval = "1h";
  candle_window = pos 24;
}

abbrev pub config : Config Fixed
config = record {
  log = record { level = "info" };
  rest = record { base_url = "https://api.hyperliquid.xyz"; timeout = seconds 10 };
  ws = record { url = ""; reconnect_delay = seconds 3; ping_interval = seconds 50 };
  state = record { sqlite_path = "data/bot.db" };
  metrics = record { enabled = none; address = "127.0.0.1:9001"; path = "/metrics" };
  timescale = record {
    enabled = false;
    dsn = "";
    schema = "public";
    max_open_conns = pos 5;
    max_idle_conns = pos 5;
    conn_max_lifetime = seconds 300;
    queue_size = pos 256;
  };
  strategy = settings;
  risk = risk;
  telegram = record {
    enabled = false;
    token = "";
    chat_id = "";
    operator_enabled = false;
    operator_poll_interval = seconds 3;
    operator_allowed_user_ids = [];
  };
}

abbrev pub idle_app : App Fixed
idle_app = record {
  cfg = config;
  strategy = record { state = State.idle };
  metrics = record {
    orders_placed = 0;
    orders_failed = 0;
    entry_failed = 0;
    exit_failed = 0;
    kill_switch_engaged = 0;
    kill_switch_restored = 0;
  };
  snapshot_persist_warned = false;
  kill_switch_active = false;
  funding_ok_count = pos 0;
  funding_bad_count = pos 0;
  funding_forecast_warned = false;
  funding_receipt_warned = false;
  entry_cooldown_until = zero_time;
  hedge_cooldown_until = zero_time;
  last_funding_receipt_check = zero_time;
  last_funding_receipt_at = zero_time;
  paused = false;
  risk_override = none;
}

abbrev pub holdings : AccountState Fixed
holdings = record {
  spot_balances = ("USDC", units 500) ∷ [];
  perp_position = [];
  open_orders = [];
  margin_summary = record {
    account_value = units 500;
    margin_ratio = pos 0;
    health_ratio = pos 0;
    has_margin_ratio = false;
    has_health_ratio = false;
  };
  has_margin_summary = true;
}

-- The environment counts the orders that were placed. Each is filled with 2 units, at a clock of
-- 1000 seconds.
abbrev pub bench : Services Fixed ℕ
bench = record {
  refresh_contexts = λ e. e;
  refresh_funding_forecast = λ e. (ok false, e);
  mid = λ asset e. (ok (units 100), e);
  oracle_price = λ asset e. some (units 100);
  funding_rate = λ asset e. some (pos 5000);
  volatility = λ asset e. some (pos 0);
  perp_context = λ asset e. some (record {
    index = pos 3;
    funding_rate = pos 5000;
    oracle_price = units 100;
    mark_price = units 100;
    sz_decimals = pos 1;
  });
  spot_context = λ asset e.
      some (record {
        symbol = "UBTC/USDC";
        base = "UBTC";
        base_sz_decimals = pos 2;
        mid_key = "@142";
      });
  perp_asset_id = λ asset e. some (pos 3);
  spot_asset_id = λ asset e. some (pos 10142);
  funding_forecast = λ asset e. none;
  last_mid_update = λ e. seconds 990;
  reconcile = λ e. (ok holdings, e);
  snapshot = λ e. holdings;
  last_update = λ e. seconds 990;
  fills_enabled = λ e. true;
  fill_size = λ id e. units 2;
  user_fills_by_time = λ start e. (ok [], e);
  open_orders = λ e. (ok [], e);
  user_funding = λ start e. (ok [], e);
  place_order = λ order e. (ok "order", e + 1);
  cancel_order = λ c e. (ok tt, e);
  usd_class_transfer = λ amount to_perp e. (ok tt, e);
  save_strategy_snapshot = λ snap e. (ok tt, e);
  send_alert = λ alert e. e;
  now = λ e. (seconds 1000, e);
  new_cloid = λ e. (ok "0x01", e);
  start_timers = λ timeout poll e. ((5, false), e);
}

abbrev pub idle_world : World Fixed ℕ
idle_world = record { app = idle_app; env = 0; calls = [] }

abbrev pub market : MarketSnapshot Fixed
market = record {
  perp_asset = "BTC";
  spot_asset = "UBTC";
  spot_mid_price = units 100;
  perp_mid_price = units 100;
  oracle_price = units 100;
  funding_rate = pos 5000;
  volatility = pos 0;
  notional_usd = units 200;
  spot_balance = pos 0;
  perp_position = pos 0;
  open_order_count = pos 0;
  margin_ratio = pos 0;
  health_ratio = pos 0;
  has_margin_ratio = false;
  has_health_ratio = false;
}
