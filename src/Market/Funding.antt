-- ===== src/Market/Funding.antt =====
-- internal/market/funding.go: the forecasts of the next funding payment. A rate or a time that a
-- forecast does not have is `none`.
pub mod Next
use hyper_basis.Prelude.{
  ℕ, suc, zero, ◌+◌, ◌*◌, ◌/◌, ◌^◌, String, Bool, true, false, not, ◌&&◌, ◌||◌, Option, none, some,
  List, [], ◌∷◌, str_eq, if◌then◌else◌,
}
use hyper_basis.Prelude.Int.{
  ℤ, pos, negsuc, ltb_ℤ, leb_ℤ, ◌+ℤ◌, ◌-ℤ◌, ◌*ℤ◌, wrap, saturate, is_zero, zero_time, seconds,
}
use hyper_basis.Prelude.Float.{Float64, nought}
use hyper_basis.Prelude.Text.{trim_space, lower_eq}
use hyper_basis.Prelude.Numerals.{Numerals}
use hyper_basis.Prelude.Dict.{insert}
use hyper_basis.Prelude.Result.{Result, ok, err, external}
use hyper_basis.Json.{
  Value, Items, Fields, get, at, text, arr, obj, nil, cons, end, field, items_list,
}
use hyper_basis.Account.Parse.{float_from_any}
use hyper_basis.Account.Balances.{first_float}
use hyper_basis.Account.Funding.{time_from_any, time_from_map}

pub record FundingForecast (F : Type 0) : Type 0 where
  pub rate : Option F
  pub next_funding : Option ℤ
  pub observed_at : ℤ
  pub interval : ℤ
  pub raw_asset_name : String
  pub source : String

abbrev pub Forecasts : Type 0 → Type 0
Forecasts F = List (String × FundingForecast F)

-- A quotient of two durations is cut off towards 0.
abbrev pub div_ℤ : ℤ → ℤ → ℤ
div_ℤ (pos a) (pos zero) = pos 0
div_ℤ (pos a) (pos (suc b)) = pos (a / suc b)
div_ℤ (pos a) (negsuc b) = pos 0 -ℤ pos (a / suc b)
div_ℤ (negsuc a) (pos zero) = pos 0
div_ℤ (negsuc a) (pos (suc b)) = pos 0 -ℤ pos (suc a / suc b)
div_ℤ (negsuc a) (negsuc b) = pos (suc a / suc b)

-- A funding time that has passed is moved on by this many intervals, if they are more than none.
unfoldable pub moved_by : ℤ → ℤ → ℤ → ℤ → ℤ
moved_by next interval now steps =
    if is_zero next
    then next
    else if ltb_ℤ now next
    then next
    else if leb_ℤ interval (pos 0)
    then next
    else if ltb_ℤ (pos 0) steps
    then next +ℤ wrap (steps *ℤ interval)
    else next

unfoldable pub steps_between : ℤ → ℤ → ℤ → ℤ
steps_between next interval now = wrap (div_ℤ (saturate (now -ℤ next)) interval +ℤ pos 1)

unfoldable pub moved_on : ℤ → ℤ → ℤ → ℤ
moved_on next interval now = moved_by next interval now (steps_between next interval now)

abbrev pub or_name : String → String → String
or_name given found = if str_eq given "" then found else given

abbrev pub next_at : Option ℤ → ℤ → ℤ → Option ℤ
unfolding moved_on
next_at none interval now = none
next_at (some next) interval now = some (moved_on next interval now)

module _ {F : Type 0} where
  unfoldable pub normalize_funding_forecast : FundingForecast F → ℤ → FundingForecast F
  normalize_funding_forecast forecast now = record forecast {
    next_funding = next_at forecast.next_funding forecast.interval now;
  }

  -- A value that is a string, else "".
  abbrev pub trimmed : Value F → String
  trimmed (text s) = trim_space s
  trimmed _ = ""

  unfoldable pub first_text : List String → Fields F → String
  first_text [] m = ""
  first_text (key ∷ ks) m =
      let s = trimmed (at key m) in let rest = first_text ks m in if str_eq s "" then rest else s

  -- A forecast with a rate or a time.
  abbrev pub informed : FundingForecast F → Option (FundingForecast F)
  informed f = elim f.rate [
    | some _ ↦ some f
    | none ↦ elim f.next_funding [ some _ ↦ some f | none ↦ none ]
  ]

module _ {F : Type 0} ⦃fl : Float64 F⦄ ⦃ns : Numerals F⦄ where
  -- The first number, which counts unless it is 0.
  abbrev pub nonzero : Option F → Option F
  nonzero none = none
  nonzero (some x) = if fl.eq x nought then none else some x

  abbrev pub interval_of : Option F → ℤ
  interval_of none = pos 0
  interval_of (some hours) =
      if fl.lt nought hours then ns.to_int (fl.mul hours (fl.lit (3600 * 10 ^ 9) 0)) else pos 0

  unfoldable pub forecast_of_fields : String → String → Fields F → Option (FundingForecast F)
  forecast_of_fields name source m = informed (record {
    rate = nonzero (first_float ("fundingRate" ∷ "funding" ∷ "rate" ∷ "predictedFunding" ∷ []) m);
    next_funding =
        time_from_map
          ("nextFundingTime" ∷ "nextFundingTimeMs" ∷ "fundingTime" ∷ "nextFunding" ∷ "time"
            ∷ "timestamp" ∷ [])
          m;
    observed_at = zero_time;
    interval = interval_of (
        first_float
          ("fundingIntervalHours" ∷ "fundingIntervalHrs" ∷ "intervalHours" ∷ "intervalHrs" ∷ []) m);
    raw_asset_name = name;
    source = source;
  })

  abbrev pub third_time : List (Value F) → Option ℤ
  unfolding time_from_any
  third_time [] = none
  third_time (v ∷ vs) = time_from_any v

  unfoldable pub forecast_of_list : String → List (Value F) → Option (FundingForecast F)
  unfolding third_time float_from_any
  forecast_of_list asset (first ∷ second ∷ others) =
      let name = or_name asset (trimmed first) in
      if str_eq name ""
      then none
      else informed (record {
        rate = float_from_any second;
        next_funding = third_time others;
        observed_at = zero_time;
        interval = pos 0;
        raw_asset_name = name;
        source = "";
      })
  forecast_of_list asset _ = none

  unfoldable pub parse_funding_forecast_item : String → Value F → Option (FundingForecast F)
  parse_funding_forecast_item asset (obj m) =
      let name = or_name asset (first_text ("coin" ∷ "asset" ∷ "symbol" ∷ []) m) in
      if str_eq name "" then none else forecast_of_fields name "" m
  parse_funding_forecast_item asset (arr items) = forecast_of_list asset (items_list items)
  parse_funding_forecast_item asset _ = none

  unfoldable pub parse_provider_forecast : String → String → Value F → Option (FundingForecast F)
  parse_provider_forecast asset source (obj m) =
      if str_eq asset "" then none else forecast_of_fields asset source m
  parse_provider_forecast asset source _ = none

  -- A provider of the list: its name and what it forecasts.
  abbrev pub provider_of : String → Value F → Option (FundingForecast F)
  unfolding parse_provider_forecast
  provider_of asset (arr (cons name (cons forecast others))) =
      parse_provider_forecast asset (trimmed name) forecast
  provider_of asset _ = none

  abbrev pub first_forecast :
      Option (FundingForecast F) → Option (FundingForecast F) → Option (FundingForecast F)
  first_forecast (some f) other = some f
  first_forecast none other = other

  -- The forecast of the exchange itself if there is one, else the first of the others.
  unfoldable pub forecast_from_providers :
      String → Items F → Option (FundingForecast F) → Option (FundingForecast F)
  unfolding provider_of
  forecast_from_providers asset nil fallback = fallback
  forecast_from_providers asset (cons provider providers) fallback =
      let found = provider_of asset provider in
      let rest = forecast_from_providers asset providers (first_forecast fallback found) in
      elim found [ none ↦ rest | some f ↦ if lower_eq f.source "hlperp" then some f else rest ]

  abbrev pub with_providers : String → Value F → Option (FundingForecast F)
  unfolding forecast_from_providers
  with_providers asset (arr providers) =
      if str_eq asset "" then none else forecast_from_providers asset providers none
  with_providers asset _ = none

  unfoldable pub parse_funding_forecast_providers : Value F → Option (FundingForecast F)
  parse_funding_forecast_providers (arr (cons name (cons providers others))) =
      with_providers (trimmed name) providers
  parse_funding_forecast_providers _ = none

  abbrev pub add_forecast : Option (FundingForecast F) → Forecasts F → Forecasts F
  add_forecast none out = out
  add_forecast (some f) out = insert f.raw_asset_name f out

  abbrev pub of_entry : Value F → Option (FundingForecast F)
  unfolding parse_funding_forecast_providers parse_funding_forecast_item
  of_entry item = elim (parse_funding_forecast_providers item) [
    | some f ↦ some f
    | none ↦ parse_funding_forecast_item "" item
  ]

  unfoldable pub forecasts_of_items : Items F → Forecasts F → Forecasts F
  unfolding of_entry
  forecasts_of_items nil out = out
  forecasts_of_items (cons item items) out =
      forecasts_of_items items (add_forecast (of_entry item) out)

  abbrev pub of_key : String → Value F → Option (FundingForecast F)
  unfolding parse_funding_forecast_item
  of_key key v = if str_eq key "" then none else parse_funding_forecast_item key v

  unfoldable pub forecasts_of_fields : Fields F → Forecasts F → Forecasts F
  unfolding of_key
  forecasts_of_fields end out = out
  forecasts_of_fields (field key v rest) out =
      forecasts_of_fields rest (add_forecast (of_key key v) out)

  abbrev pub alone_or_keyed : Option (FundingForecast F) → Fields F → Forecasts F
  unfolding forecasts_of_fields
  alone_or_keyed (some f) m = add_forecast (some f) []
  alone_or_keyed none m = forecasts_of_fields m []

  abbrev pub or_forecasts : Option (Forecasts F) → Forecasts F → Forecasts F
  or_forecasts none other = other
  or_forecasts (some found) other = found

  unfoldable mutual
    pub parse_funding_forecasts : Value F → Forecasts F
    parse_funding_forecasts (obj m) = or_forecasts (forecasts_under "predictedFundings" m) (
        or_forecasts (forecasts_under "data" m)
          (alone_or_keyed (parse_funding_forecast_item "" (obj m)) m))
    parse_funding_forecasts (arr items) = forecasts_of_items items []
    parse_funding_forecasts _ = []

    -- Those under this field, if there is one.
    pub forecasts_under : String → Fields F → Option (Forecasts F)
    forecasts_under wanted end = none
    forecasts_under wanted (field key nested rest) =
        let here = parse_funding_forecasts nested in
        let there = forecasts_under wanted rest in if str_eq key wanted then some here else there

  abbrev pub observed : ℤ → Forecasts F → Forecasts F
  unfolding normalize_funding_forecast
  observed now [] = []
  observed now ((key, f) ∷ rest) =
      (key, normalize_funding_forecast (record f { observed_at = now }) now) ∷ observed now rest

-- The part of `MarketData` that holds the forecasts.
pub record ForecastCache (F : Type 0) : Type 0 where
  pub funding_forecasts : Forecasts F
  pub last_funding_fetch : ℤ
  pub last_funding_attempt : ℤ
  pub funding_window : ℤ

module _ {F : Type 0} where
  unfoldable pub should_refresh_funding_forecast : ℤ → ForecastCache F → Bool
  unfolding saturate ◌-ℤ◌
  should_refresh_funding_forecast now c =
      leb_ℤ c.funding_window (pos 0)
      || is_zero c.last_funding_attempt
      || leb_ℤ c.funding_window (saturate (now -ℤ c.last_funding_attempt))

module _ {F E : Type 0} ⦃fl : Float64 F⦄ ⦃ns : Numerals F⦄ where
  abbrev pub store_forecasts :
      ℤ → ForecastCache F → Forecasts F → E → Result Bool × ForecastCache F × E
  store_forecasts now c [] e = (err (external "predicted fundings missing"), c, e)
  store_forecasts now c found e =
      (ok true, record c { funding_forecasts = observed now found; last_funding_fetch = now }, e)

  abbrev pub with_forecasts :
      ℤ → ForecastCache F → Result (Value F) × E → Result Bool × ForecastCache F × E
  unfolding parse_funding_forecasts
  with_forecasts now c (err x, e) = (err x, c, e)
  with_forecasts now c (ok payload, e) = store_forecasts now c (parse_funding_forecasts payload) e

  -- `RefreshFundingForecast`: `ask` is the request to the REST client, if there is one; the clock is read
  -- before it and after it.
  unfoldable pub refresh_forecasts :
      Option (E → Result (Value F) × E)
      → (before after : ℤ) → ForecastCache F
      → E
      → Result Bool × ForecastCache F × E
  unfolding with_forecasts
  refresh_forecasts none before after c e = (ok false, c, e)
  refresh_forecasts (some ask) before after c e =
      let asked = with_forecasts after (record c { last_funding_attempt = before }) (ask e) in
      if should_refresh_funding_forecast before c then asked else (ok false, c, e)
