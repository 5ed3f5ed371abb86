-- ===== src/Config/Validate/Ranges.antt =====
-- What the settings are like that `Load` returns without an error.
use hyper_basis.Prelude.{
  ◌≡◌, refl, ap, subst, String, Bool, true, false, not, ◌&&◌, Option, none, some, List, [], ◌∷◌,
  ◌++◌, arith, str_eq, All, Bool-cases, inl, inr,
}
use hyper_basis.Prelude.Int.{ℤ, pos, ◌≤ℤ◌, ltb_ℤ}
use hyper_basis.Prelude.Float.{Float64, nought}
use hyper_basis.Prelude.Numerals.{Numerals}
use hyper_basis.Prelude.Result.{Result, ok, err, config_path_required}
use hyper_basis.Config.{Config, StrategyConfig, RiskConfig}
use hyper_basis.Config.Load.{Urls, apply_defaults, apply_env_overrides}
use hyper_basis.Config.Validate.{
  Check, first_error, strategy_checks, risk_checks, timescale_checks, telegram_checks,
  metrics_checks, checks_of, validate, checked, load, is_valid_identifier, is_numeric, is_negative,
  is_not_positive,
}

-- The conditions of these checks do not hold.
abbrev pub AllPass : List Check → Type 0
AllPass = All λ check. check.0 ≡ false

first_error-AllPass : (checks : List Check) → first_error checks ≡ ok tt → AllPass checks
unfolding first_error
first_error-AllPass [] h = tt
first_error-AllPass ((true, e) ∷ checks) h = absurd (cc h)
first_error-AllPass ((false, e) ∷ checks) h = (refl, first_error-AllPass checks h)

split-AllPass : (xs ys : List Check) → AllPass (xs ++ ys) → AllPass xs × AllPass ys
split-AllPass [] ys h = (tt, h)
split-AllPass (x ∷ xs) ys (p, h) = let (q, r) = split-AllPass xs ys h in ((p, q), r)

pub record ValidStrategy {F : Type 0} ⦃fl : Float64 F⦄ (s : StrategyConfig F) : Type 0 where
  pub perp_named : str_eq s.perp_asset "" ≡ false
  pub spot_named : str_eq s.spot_asset "" ≡ false
  pub notional : fl.le s.notional_usd nought ≡ false
  pub timeout : pos 1 ≤ℤ s.entry_timeout
  pub poll : pos 1 ≤ℤ s.entry_poll_interval
  pub exposure : fl.lt s.min_exposure_usd nought ≡ false
  pub fee : fl.lt s.fee_bps nought ≡ false
  pub slippage : fl.lt s.slippage_bps nought ≡ false
  pub price : fl.lt s.ioc_price_bps nought ≡ false
  pub buffer : fl.lt s.carry_buffer_usd nought ≡ false
  pub confirmations : pos 1 ≤ℤ s.funding_confirmations
  pub dips : pos 1 ≤ℤ s.funding_dip_confirmations
  pub band : fl.lt s.delta_band_usd nought ≡ false
  pub entry : pos 0 ≤ℤ s.entry_cooldown
  pub hedge : pos 0 ≤ℤ s.hedge_cooldown
  pub reconcile : pos 0 ≤ℤ s.spot_reconcile_interval
  pub guard : pos 0 ≤ℤ s.exit_funding_guard

pub record ValidRisk {F : Type 0} ⦃fl : Float64 F⦄ (s : StrategyConfig F) (r : RiskConfig F)
    : Type 0 where
  pub margin : fl.lt r.min_margin_ratio nought ≡ false
  pub health : fl.lt r.min_health_ratio nought ≡ false
  pub market : pos 0 ≤ℤ r.max_market_age
  pub account : pos 0 ≤ℤ r.max_account_age
  pub within :
      fl.lt nought r.max_notional_usd ≡ true → fl.lt r.max_notional_usd s.notional_usd ≡ false

-- The database is only looked at when it is enabled; so is the operator, who needs the alerts.
pub record ValidServices {F : Type 0} ⦃ns : Numerals F⦄ (cfg : Config F) : Type 0 where
  pub queue : cfg.timescale.enabled ≡ true → pos 1 ≤ℤ cfg.timescale.queue_size
  pub schema : cfg.timescale.enabled ≡ true → is_valid_identifier cfg.timescale.schema ≡ true
  pub alerts : cfg.telegram.operator_enabled ≡ true → cfg.telegram.enabled ≡ true
  pub poll : cfg.telegram.operator_enabled ≡ true → pos 1 ≤ℤ cfg.telegram.operator_poll_interval
  pub chat :
      cfg.telegram.operator_enabled ≡ true → is_numeric ns.parse_int cfg.telegram.chat_id ≡ true

one_or_more : (n : ℤ) → is_not_positive n ≡ false → pos 1 ≤ℤ n
one_or_more n h = ground (arith, h)

nought_or_more : (n : ℤ) → is_negative n ≡ false → pos 0 ≤ℤ n
nought_or_more n h = ground (arith, h)

not_below_one : (n : ℤ) → ltb_ℤ n (pos 1) ≡ false → pos 1 ≤ℤ n
not_below_one n h = ground (arith, h)

unless : (a b : Bool) → (a && b) ≡ false → a ≡ true → b ≡ false
unless a b h k = ground (arith, h, k)

unnegated : (b : Bool) → not b ≡ false → b ≡ true
unnegated b h = ground (arith, h)

module _ {F : Type 0} ⦃fl : Float64 F⦄ ⦃ns : Numerals F⦄ where
  strategy-Valid : (s : StrategyConfig F) → AllPass (strategy_checks s) → ValidStrategy s
  unfolding strategy_checks
  strategy-Valid s
        (a, (b, (c, (d, (e, (f, (g, (h, (i, (j, (k, (l, (m, (n, (o, (p, (q, _))))))))))))))))) =
      record {
        perp_named = a;
        spot_named = b;
        notional = c;
        timeout = one_or_more s.entry_timeout d;
        poll = one_or_more s.entry_poll_interval e;
        exposure = f;
        fee = g;
        slippage = h;
        price = i;
        buffer = j;
        confirmations = not_below_one s.funding_confirmations k;
        dips = not_below_one s.funding_dip_confirmations l;
        band = m;
        entry = nought_or_more s.entry_cooldown n;
        hedge = nought_or_more s.hedge_cooldown o;
        reconcile = nought_or_more s.spot_reconcile_interval p;
        guard = nought_or_more s.exit_funding_guard q;
      }

  risk-Valid : (s : StrategyConfig F) (r : RiskConfig F) → AllPass (risk_checks s r) → ValidRisk s r
  unfolding risk_checks
  risk-Valid s r (a, (b, (c, (d, (e, _))))) = record {
    margin = a;
    health = b;
    market = nought_or_more r.max_market_age c;
    account = nought_or_more r.max_account_age d;
    within = λ set.
        unless (fl.lt nought r.max_notional_usd) (fl.lt r.max_notional_usd s.notional_usd) e set;
  }

  services-Valid :
      (cfg : Config F)
      → AllPass (timescale_checks cfg.timescale)
      → AllPass (telegram_checks ns.parse_int cfg.telegram)
      → ValidServices cfg
  unfolding timescale_checks telegram_checks
  services-Valid cfg (_, (b, (_, (_, (_, (f, _)))))) (_, (q, (r, (_, (t, _))))) = record {
    queue = λ on.
        one_or_more cfg.timescale.queue_size
          (unless cfg.timescale.enabled (is_not_positive cfg.timescale.queue_size) b on);
    schema = λ on.
        unnegated (is_valid_identifier cfg.timescale.schema)
          (unless cfg.timescale.enabled (not (is_valid_identifier cfg.timescale.schema)) f on);
    alerts = λ on.
        unnegated cfg.telegram.enabled
          (unless cfg.telegram.operator_enabled (not cfg.telegram.enabled) q on);
    poll = λ on. one_or_more cfg.telegram.operator_poll_interval (
        unless cfg.telegram.operator_enabled (is_not_positive cfg.telegram.operator_poll_interval) r
          on);
    chat = λ on. unnegated (is_numeric ns.parse_int cfg.telegram.chat_id) (
        unless cfg.telegram.operator_enabled (not (is_numeric ns.parse_int cfg.telegram.chat_id)) t
          on);
  }

  -- All of it.
  pub record Valid (cfg : Config F) : Type 0 where
    pub strategy : ValidStrategy cfg.strategy
    pub risk : ValidRisk cfg.strategy cfg.risk
    pub services : ValidServices cfg

  validate-Valid : (cfg : Config F) → validate cfg ≡ ok tt → Valid cfg
  unfolding validate checks_of
  validate-Valid cfg h =
      let rc = risk_checks cfg.strategy cfg.risk in
      let tc = telegram_checks ns.parse_int cfg.telegram in
      let (s, more) =
        split-AllPass (strategy_checks cfg.strategy)
          (metrics_checks cfg.metrics ++ (timescale_checks cfg.timescale ++ (rc ++ tc)))
          (first_error-AllPass (checks_of cfg) h) in
      let (_, others) =
        split-AllPass (metrics_checks cfg.metrics) (timescale_checks cfg.timescale ++ (rc ++ tc))
          more in
      let (t, rest) = split-AllPass (timescale_checks cfg.timescale) (rc ++ tc) others in
      let (r, g) = split-AllPass rc tc rest in
      record {
        strategy = strategy-Valid cfg.strategy s;
        risk = risk-Valid cfg.strategy cfg.risk r;
        services = services-Valid cfg t g;
      }

module _ {F U : Type 0} ⦃fl : Float64 F⦄ ⦃ns : Numerals F⦄ (urls : Urls U)
    (env : String → String) where
  no_settings :
      (r : Result (Unit {0})) (cfg : Config F)
      → ¬ (◌≡◌ {A = Option (Config F) × Result (Unit {0})} (none, r) (some cfg, ok tt))
  no_settings r cfg h =
      let none_some : none ≡ some cfg = ap (λ (p : Option (Config F) × Result (Unit {0})). p.0) h in
      cc none_some

  checked-Valid :
      (r : Result (Config F)) (cfg : Config F) → checked urls env r ≡ (some cfg, ok tt) → Valid cfg
  unfolding checked
  checked-Valid (err e) cfg h = absurd (no_settings (err e) cfg h)
  checked-Valid (ok raw) cfg h =
      let loaded = apply_env_overrides env (apply_defaults urls raw) in
      let same : some loaded ≡ some cfg =
        ap (λ (p : Option (Config F) × Result (Unit {0})). p.0) h in
      let fine : validate loaded ≡ ok tt =
        ap (λ (p : Option (Config F) × Result (Unit {0})). p.1) h in
      subst Valid (cc same) (validate-Valid loaded fine)

  -- Settings that `Load` returns without an error, whatever the file and the environment hold, name both
  -- assets, have a notional that is not `<= 0` and not above the limit on it if that limit is positive,
  -- waiting times and confirmations of at least one, and no cost, band, cooldown, ratio or age that is
  -- negative; if the database is enabled its queue has a size and its schema is an identifier; and if
  -- the operator is enabled so are the alerts, with a poll interval that is positive and a numeric chat.
  pub load-Valid :
      (read : String → Result (Config F)) (path : String) (cfg : Config F)
      → load urls env read path ≡ (some cfg, ok tt)
      → Valid cfg
  unfolding load
  load-Valid read path cfg h = elim (Bool-cases (str_eq path "")) [
    | inl e ↦ absurd (no_settings (err config_path_required) cfg (rw e at h))
    | inr e ↦ checked-Valid (read path) cfg (rw e at h)
  ]
