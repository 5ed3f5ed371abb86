-- ===== src/Config/Load.antt =====
-- internal/config/config.go: what `Load` makes of the settings that the YAML file has, before it checks
-- them. `Urls` is net/url, `env` reads a variable of the environment.
use Prim.Native.String.{◌++◌ as append}
use hyper_basis.Prelude.{
  ℕ, String, Bool, true, ◌||◌, Option, none, some, List, [], ◌∷◌, str_eq, if◌then◌else◌,
}
use hyper_basis.Prelude.Int.{ℤ, pos, ltb_ℤ, leb_ℤ, eqb_ℤ, ◌*ℤ◌, wrap, seconds}
use hyper_basis.Prelude.Float.{Float64, nought}
use hyper_basis.Prelude.Text.{trim_space, trim_slashes, lower_eq}
use hyper_basis.Config.{Config, StrategyConfig, RiskConfig, TimescaleConfig}

-- A parsed URL, and the URL with another scheme and path and without query and fragment.
pub record Urls (U : Type 0) : Type 0 where
  pub parse : String → Option U
  pub host : U → String
  pub scheme : U → String
  pub path : U → String
  pub print_as : (scheme path : String) → U → String

-- A setting that is missing reads as "", 0 or nil.
abbrev pub or_text : String → String → String
or_text given fallback = if str_eq given "" then fallback else given

abbrev pub or_number : ℤ → ℤ → ℤ
or_number given fallback = if eqb_ℤ given (pos 0) then fallback else given

abbrev pub or_true : Option Bool → Option Bool
or_true none = some true
or_true (some b) = some b

unfoldable pub scale_duration : ℤ → ℕ → ℤ
unfolding ◌*ℤ◌ wrap
scale_duration value multiplier =
    if leb_ℤ value (pos 0) || leb_ℤ (pos multiplier) (pos 0)
    then pos 0
    else wrap (value *ℤ pos multiplier)

-- `maxDuration`, with the largest one so far.
unfoldable pub max_duration : ℤ → List ℤ → ℤ
max_duration most [] = most
max_duration most (value ∷ values) = max_duration (if ltb_ℤ most value then value else most) values

unfoldable pub derive_max_market_age : ℤ → ℤ → ℤ
derive_max_market_age entry ping =
    max_duration (pos 0) (scale_duration entry 4 ∷ scale_duration ping 2 ∷ [])

unfoldable pub derive_max_account_age : ℤ → ℤ → ℤ → ℤ
derive_max_account_age entry ping reconcile =
    max_duration (pos 0)
      (scale_duration reconcile 2 ∷ scale_duration entry 4 ∷ scale_duration ping 2 ∷ [])

abbrev default_timescale : TimescaleConfig → TimescaleConfig
default_timescale t = record t {
  schema = or_text t.schema "public";
  max_open_conns = or_number t.max_open_conns (pos 5);
  max_idle_conns = or_number t.max_idle_conns (pos 5);
  conn_max_lifetime = or_number t.conn_max_lifetime (seconds 300);
  queue_size = or_number t.queue_size (pos 256);
}

module _ {U : Type 0} (urls : Urls U) where
  abbrev pub ws_scheme : String → String
  ws_scheme scheme =
      if lower_eq scheme "http" then "ws" else if lower_eq scheme "https" then "wss" else scheme

  abbrev pub ws_url : Option U → String
  ws_url none = ""
  ws_url (some u) =
      if str_eq (urls.host u) ""
      then ""
      else urls.print_as (ws_scheme (urls.scheme u)) (append (trim_slashes (urls.path u)) "/ws") u

  unfoldable pub derive_ws_url : String → String
  derive_ws_url rest_base =
      let base = trim_space rest_base in if str_eq base "" then "" else ws_url (urls.parse base)

module _ {F : Type 0} ⦃fl : Float64 F⦄ where
  -- `minOrderValueUSD`
  abbrev pub derive_min_exposure_usd : F
  derive_min_exposure_usd = fl.lit 10 0

  unfoldable pub derive_delta_band_usd : F → F
  derive_delta_band_usd notional =
      let band = fl.mul notional (fl.lit 5 2) in
      if fl.le notional nought then nought else if fl.lt band (fl.lit 2 0) then fl.lit 2 0 else band

  abbrev or_float : F → F → F
  or_float given fallback = if fl.eq given nought then fallback else given

  -- A band that is not derived leaves the setting as it is.
  abbrev or_band : F → F → F
  or_band given derived =
      if fl.eq given nought then (if fl.lt nought derived then derived else given) else given

  unfoldable pub default_strategy : StrategyConfig F → StrategyConfig F
  unfolding derive_delta_band_usd wrap ◌*ℤ◌
  default_strategy s =
      let interval = or_number s.entry_interval (seconds 30) in
      let cooldown = if ltb_ℤ (pos 0) interval then wrap (interval *ℤ pos 2) else seconds 60 in
      let perp = or_text s.perp_asset s.asset in
      record s {
        perp_asset = perp;
        spot_asset = or_text s.spot_asset (or_text s.asset perp);
        funding_confirmations = or_number s.funding_confirmations (pos 1);
        funding_dip_confirmations = or_number s.funding_dip_confirmations (pos 1);
        delta_band_usd = or_band s.delta_band_usd (derive_delta_band_usd s.notional_usd);
        min_exposure_usd = or_float s.min_exposure_usd derive_min_exposure_usd;
        entry_interval = interval;
        entry_cooldown = or_number s.entry_cooldown cooldown;
        hedge_cooldown = or_number s.hedge_cooldown (seconds 10);
        spot_reconcile_interval = or_number s.spot_reconcile_interval (seconds 300);
        entry_timeout = or_number s.entry_timeout (seconds 5);
        entry_poll_interval = or_number s.entry_poll_interval (pos 250_000_000);
        exit_funding_guard = or_number s.exit_funding_guard (seconds 120);
        exit_funding_guard_enabled = or_true s.exit_funding_guard_enabled;
        candle_interval = or_text s.candle_interval "1h";
        candle_window = or_number s.candle_window (pos 24);
      }

  abbrev default_risk : StrategyConfig F → ℤ → RiskConfig F → RiskConfig F
  unfolding derive_max_market_age derive_max_account_age
  default_risk s ping r = record r {
    max_market_age = or_number r.max_market_age (derive_max_market_age s.entry_interval ping);
    max_account_age =
        or_number r.max_account_age
          (derive_max_account_age s.entry_interval ping s.spot_reconcile_interval);
  }

module _ {F U : Type 0} ⦃fl : Float64 F⦄ (urls : Urls U) where
  unfoldable pub apply_defaults : Config F → Config F
  unfolding default_risk
  apply_defaults cfg =
      let base = or_text cfg.rest.base_url "https://api.hyperliquid.xyz" in
      let ping = or_number cfg.ws.ping_interval (seconds 50) in
      let strategy = default_strategy cfg.strategy in
      record {
        log = record { level = or_text cfg.log.level "info" };
        rest = record { base_url = base; timeout = or_number cfg.rest.timeout (seconds 10) };
        ws = record {
          url =
              or_text cfg.ws.url (or_text (derive_ws_url urls base) "wss://api.hyperliquid.xyz/ws");
          reconnect_delay = or_number cfg.ws.reconnect_delay (seconds 3);
          ping_interval = ping;
        };
        state = record { sqlite_path = or_text cfg.state.sqlite_path "data/hl-carry-bot.db" };
        metrics = record {
          enabled = or_true cfg.metrics.enabled;
          address = or_text cfg.metrics.address "127.0.0.1:9001";
          path = or_text cfg.metrics.path "/metrics";
        };
        timescale = default_timescale cfg.timescale;
        strategy = strategy;
        risk = default_risk strategy ping cfg.risk;
        telegram = record cfg.telegram {
          operator_poll_interval = or_number cfg.telegram.operator_poll_interval (seconds 3);
        };
      }

-- A variable that is not blank replaces the setting.
abbrev pub from_env : (String → String) → String → String → String
from_env env name given =
    let found = trim_space (env name) in if str_eq found "" then given else found

unfoldable pub apply_env_overrides : {F : Type 0} → (String → String) → Config F → Config F
apply_env_overrides env cfg = record cfg {
  timescale = record cfg.timescale { dsn = from_env env "HL_TIMESCALE_DSN" cfg.timescale.dsn };
  telegram = record cfg.telegram {
    token = from_env env "HL_TELEGRAM_TOKEN" cfg.telegram.token;
    chat_id = from_env env "HL_TELEGRAM_CHAT_ID" cfg.telegram.chat_id;
  };
}
