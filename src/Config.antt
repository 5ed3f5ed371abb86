-- ===== src/Config.antt =====
-- internal/config/config.go: the settings. `int` and `time.Duration` are
-- integers, durations in nanoseconds; a pointer that may be nil is an `Option`.
pub mod Load
pub mod Validate
use hyper_basis.Prelude.{String, Bool, Option, List}
use hyper_basis.Prelude.Int.{ℤ}

pub record RiskConfig (F : Type 0) : Type 0 where
  pub max_notional_usd : F
  pub max_open_orders : ℤ
  pub min_margin_ratio : F
  pub min_health_ratio : F
  pub max_market_age : ℤ
  pub max_account_age : ℤ

pub record StrategyConfig (F : Type 0) : Type 0 where
  pub asset : String
  pub perp_asset : String
  pub spot_asset : String
  pub notional_usd : F
  pub min_funding_rate : F
  pub max_volatility : F
  pub fee_bps : F
  pub slippage_bps : F
  pub ioc_price_bps : F
  pub carry_buffer_usd : F
  pub funding_confirmations : ℤ
  pub funding_dip_confirmations : ℤ
  pub delta_band_usd : F
  pub min_exposure_usd : F
  pub entry_interval : ℤ
  pub entry_cooldown : ℤ
  pub hedge_cooldown : ℤ
  pub spot_reconcile_interval : ℤ
  pub entry_timeout : ℤ
  pub entry_poll_interval : ℤ
  pub exit_on_funding_dip : Bool
  pub exit_funding_guard : ℤ
  pub exit_funding_guard_enabled : Option Bool
  pub candle_interval : String
  pub candle_window : ℤ

pub record LoggingConfig : Type 0 where
  pub level : String

pub record RestConfig : Type 0 where
  pub base_url : String
  pub timeout : ℤ

pub record WsConfig : Type 0 where
  pub url : String
  pub reconnect_delay : ℤ
  pub ping_interval : ℤ

pub record StateConfig : Type 0 where
  pub sqlite_path : String

pub record MetricsConfig : Type 0 where
  pub enabled : Option Bool
  pub address : String
  pub path : String

pub record TimescaleConfig : Type 0 where
  pub enabled : Bool
  pub dsn : String
  pub schema : String
  pub max_open_conns : ℤ
  pub max_idle_conns : ℤ
  pub conn_max_lifetime : ℤ
  pub queue_size : ℤ

pub record TelegramConfig : Type 0 where
  pub enabled : Bool
  pub token : String
  pub chat_id : String
  pub operator_enabled : Bool
  pub operator_poll_interval : ℤ
  pub operator_allowed_user_ids : List ℤ

pub record Config (F : Type 0) : Type 0 where
  pub log : LoggingConfig
  pub rest : RestConfig
  pub ws : WsConfig
  pub state : StateConfig
  pub metrics : MetricsConfig
  pub timescale : TimescaleConfig
  pub strategy : StrategyConfig F
  pub risk : RiskConfig F
  pub telegram : TelegramConfig
