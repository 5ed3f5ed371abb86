-- ===== src/Config/Validate.antt =====
-- internal/config/config.go: the checks of `Load`. Each is a condition that must not hold with the error
-- that it gives, in the order of the code; the error names the setting.
pub mod Ranges
use Prim.Native.Char.{Char, code}
use hyper_basis.Prelude.{
  ℕ, String, Bool, true, false, not, ◌&&◌, ◌||◌, Option, none, some, List, [], ◌∷◌, ◌++◌, str_eq,
  leb, ◌==◌, if◌then◌else◌,
}
use hyper_basis.Prelude.Int.{ℤ, pos, ltb_ℤ, leb_ℤ}
use hyper_basis.Prelude.Float.{Float64, nought}
use hyper_basis.Prelude.Numerals.{Numerals}
use hyper_basis.Prelude.Result.{Err, Result, ok, err, config_path_required, config_invalid}
use hyper_basis.Prelude.Text.{trim_space, after_slash}
use hyper_basis.Config.{
  Config, StrategyConfig, RiskConfig, MetricsConfig, TimescaleConfig, TelegramConfig,
}
use hyper_basis.Config.Load.{Urls, apply_defaults, apply_env_overrides}

abbrev pub is_letter : Char → Bool
is_letter c =
    code c == 95 || (leb 97 (code c) && leb (code c) 122) || (leb 65 (code c) && leb (code c) 90)

abbrev pub is_digit : Char → Bool
is_digit c = leb 48 (code c) && leb (code c) 57

unfoldable pub all_word : String → Bool
all_word String.[] = true
all_word (String.◌∷◌ c s) = (is_letter c || is_digit c) && all_word s

unfoldable pub is_valid_identifier : String → Bool
is_valid_identifier String.[] = false
is_valid_identifier (String.◌∷◌ c s) = is_letter c && all_word s

abbrev pub Check : Type 0
Check = Bool × Err

-- The error of the first condition that holds.
unfoldable pub first_error : List Check → Result (Unit {0})
first_error [] = ok tt
first_error ((failed, e) ∷ checks) = let rest = first_error checks in if failed then err e else rest

abbrev pub is_blank_text : String → Bool
is_blank_text s = str_eq (trim_space s) ""

abbrev pub has_slash_front : String → Bool
has_slash_front s = elim (after_slash s) [ none ↦ false | some _ ↦ true ]

abbrev pub is_negative : ℤ → Bool
is_negative n = ltb_ℤ n (pos 0)

abbrev pub is_not_positive : ℤ → Bool
is_not_positive n = leb_ℤ n (pos 0)

module _ {F : Type 0} ⦃fl : Float64 F⦄ where
  abbrev pub is_below_nought : F → Bool
  is_below_nought x = fl.lt x nought

  unfoldable pub strategy_checks : StrategyConfig F → List Check
  strategy_checks s =
      (str_eq s.perp_asset "", config_invalid "strategy.perp_asset")
      ∷ (str_eq s.spot_asset "", config_invalid "strategy.spot_asset")
      ∷ (fl.le s.notional_usd nought, config_invalid "strategy.notional_usd")
      ∷ (is_not_positive s.entry_timeout, config_invalid "strategy.entry_timeout")
      ∷ (is_not_positive s.entry_poll_interval, config_invalid "strategy.entry_poll_interval")
      ∷ (is_below_nought s.min_exposure_usd, config_invalid "strategy.min_exposure_usd")
      ∷ (is_below_nought s.fee_bps, config_invalid "strategy.fee_bps")
      ∷ (is_below_nought s.slippage_bps, config_invalid "strategy.slippage_bps")
      ∷ (is_below_nought s.ioc_price_bps, config_invalid "strategy.ioc_price_bps")
      ∷ (is_below_nought s.carry_buffer_usd, config_invalid "strategy.carry_buffer_usd")
      ∷ (ltb_ℤ s.funding_confirmations (pos 1), config_invalid "strategy.funding_confirmations")
      ∷ (
        ltb_ℤ s.funding_dip_confirmations (pos 1),
        config_invalid "strategy.funding_dip_confirmations",
      )
      ∷ (is_below_nought s.delta_band_usd, config_invalid "strategy.delta_band_usd")
      ∷ (is_negative s.entry_cooldown, config_invalid "strategy.entry_cooldown")
      ∷ (is_negative s.hedge_cooldown, config_invalid "strategy.hedge_cooldown")
      ∷ (is_negative s.spot_reconcile_interval, config_invalid "strategy.spot_reconcile_interval")
      ∷ (is_negative s.exit_funding_guard, config_invalid "strategy.exit_funding_guard")
      ∷ []

  unfoldable pub risk_checks : StrategyConfig F → RiskConfig F → List Check
  risk_checks s r =
      (is_below_nought r.min_margin_ratio, config_invalid "risk.min_margin_ratio")
      ∷ (is_below_nought r.min_health_ratio, config_invalid "risk.min_health_ratio")
      ∷ (is_negative r.max_market_age, config_invalid "risk.max_market_age")
      ∷ (is_negative r.max_account_age, config_invalid "risk.max_account_age")
      ∷ (
        fl.lt nought r.max_notional_usd && fl.lt r.max_notional_usd s.notional_usd,
        config_invalid "risk.max_notional_usd",
      )
      ∷ []

unfoldable pub timescale_checks : TimescaleConfig → List Check
unfolding is_valid_identifier
timescale_checks t =
    (t.enabled && is_blank_text t.dsn, config_invalid "timescale.dsn")
    ∷ (t.enabled && is_not_positive t.queue_size, config_invalid "timescale.queue_size")
    ∷ (t.enabled && is_negative t.max_open_conns, config_invalid "timescale.max_open_conns")
    ∷ (t.enabled && is_negative t.max_idle_conns, config_invalid "timescale.max_idle_conns")
    ∷ (t.enabled && is_negative t.conn_max_lifetime, config_invalid "timescale.conn_max_lifetime")
    ∷ (t.enabled && not (is_valid_identifier t.schema), config_invalid "timescale.schema")
    ∷ []

abbrev pub is_numeric : (String → Option ℤ) → String → Bool
is_numeric parse_int s = elim (parse_int (trim_space s)) [ none ↦ false | some _ ↦ true ]

unfoldable pub telegram_checks : (String → Option ℤ) → TelegramConfig → List Check
telegram_checks parse_int t =
    (
      t.enabled && (is_blank_text t.token || is_blank_text t.chat_id),
      config_invalid "telegram.token",
    )
    ∷ (t.operator_enabled && not t.enabled, config_invalid "telegram.operator_enabled")
    ∷ (
      t.operator_enabled && is_not_positive t.operator_poll_interval,
      config_invalid "telegram.operator_poll_interval",
    )
    ∷ (t.operator_enabled && is_blank_text t.chat_id, config_invalid "telegram.chat_id")
    ∷ (
      t.operator_enabled && not (is_numeric parse_int t.chat_id),
      config_invalid "telegram.chat_id",
    )
    ∷ []

unfoldable pub metrics_checks : MetricsConfig → List Check
metrics_checks m =
    (str_eq m.path "" || not (has_slash_front m.path), config_invalid "metrics.path") ∷ []

module _ {F : Type 0} ⦃fl : Float64 F⦄ ⦃ns : Numerals F⦄ where
  unfoldable pub checks_of : Config F → List Check
  checks_of cfg =
      strategy_checks cfg.strategy
      ++ (metrics_checks cfg.metrics
          ++ (timescale_checks cfg.timescale
              ++ (risk_checks cfg.strategy cfg.risk ++ telegram_checks ns.parse_int cfg.telegram)))

  unfoldable pub validate : Config F → Result (Unit {0})
  validate cfg = first_error (checks_of cfg)

module _ {F U : Type 0} ⦃fl : Float64 F⦄ ⦃ns : Numerals F⦄ (urls : Urls U)
    (env : String → String) where
  -- `read` is os.ReadFile and the YAML decoder. Like the code, this returns the settings together with
  -- the result of the checks.
  unfoldable pub checked : Result (Config F) → Option (Config F) × Result (Unit {0})
  checked (err e) = (none, err e)
  checked (ok raw) =
      let cfg = apply_env_overrides env (apply_defaults urls raw) in (some cfg, validate cfg)

  unfoldable pub load :
      (String → Result (Config F)) → String → Option (Config F) × Result (Unit {0})
  load read path = if str_eq path "" then (none, err config_path_required) else checked (read path)
