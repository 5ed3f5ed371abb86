-- ===== src/Examples/Settings.antt =====
-- Loading of the settings at a concrete file.
use Prim.Native.String.{◌++◌ as append}
use hyper_basis.Prelude.{refl, String, some}
use hyper_basis.Prelude.Float.{Fixed, fixed}
use hyper_basis.Prelude.Result.{Result, ok}
use hyper_basis.Config.{Config}
use hyper_basis.Config.Load.{
  Urls, apply_defaults, apply_env_overrides, default_strategy, derive_delta_band_usd,
}
use hyper_basis.Config.Validate.{
  load, checked, validate, checks_of, first_error, strategy_checks, metrics_checks,
  timescale_checks, risk_checks, telegram_checks,
}
use hyper_basis.Config.Validate.Ranges.{Valid, load-Valid}
use hyper_basis.Examples.Bench.{config}
use hyper_basis.Examples.Messages.{decimal}

-- A URL is the text of its host.
abbrev plain_urls : Urls String
plain_urls = record {
  parse = some;
  host = λ u. u;
  scheme = λ u. "https";
  path = λ u. "/";
  print_as = λ scheme path u. append scheme (append "://" (append u path));
}

abbrev no_env : String → String
no_env name = ""

abbrev file : String → Result (Config Fixed)
file path = ok config

abbrev loaded : Config Fixed
unfolding apply_env_overrides apply_defaults
loaded = apply_env_overrides no_env (apply_defaults plain_urls config)

load-Valid_example : Valid loaded
unfolding load checked validate checks_of first_error strategy_checks metrics_checks
    timescale_checks risk_checks telegram_checks apply_env_overrides apply_defaults loaded
    default_strategy fixed derive_delta_band_usd
load-Valid_example = load-Valid plain_urls no_env file "config.yaml" loaded refl
