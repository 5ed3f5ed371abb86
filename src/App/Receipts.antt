-- ===== src/App/Receipts.antt =====
-- internal/app/app.go: `maybeLogFundingReceipt`, the forecast and the mid price of the spot asset.
pub mod Newest
use Prim.Native.Char.{code}
use Prim.Native.String.{String}
use hyper_basis.Prelude.{
  ℕ, ◌+◌, Bool, true, false, not, ◌&&◌, ◌||◌, Option, none, some, List, [], ◌∷◌, str_eq, leb, ◌==◌,
  if◌then◌else◌,
}
use hyper_basis.Prelude.Int.{
  ℤ, pos, ltb_ℤ, ◌+ℤ◌, ◌-ℤ◌, ◌*ℤ◌, wrap, saturate, is_zero, zero_time, seconds, unix_milli,
}
use hyper_basis.Prelude.Float.{Float64}
use hyper_basis.Prelude.Result.{Result, ok, err, mid_price_missing}
use hyper_basis.Strategy.{MarketSnapshot}
use hyper_basis.App.{
  Services, World, App, FundingForecast, FundingPayment, SpotContext, set_env, set_app,
}
use hyper_basis.App.Numbers.{flat_epsilon}
use hyper_basis.App.Upkeep.{spot_context}

abbrev lower : ℕ → ℕ
lower c = if leb b'A' c && leb c b'Z' then c + 32 else c

-- `strings.EqualFold` on ASCII, which the asset names are.
abbrev pub equal_fold : String → String → Bool
equal_fold String.[] String.[] = true
equal_fold (String.◌∷◌ c s) (String.◌∷◌ d t) = lower (code c) == lower (code d) && equal_fold s t
equal_fold s t = false

-- Whether an entry is a new payment for the asset.
abbrev pub is_new_receipt : String → ℤ → FundingPayment → Bool
is_new_receipt perp_asset last entry =
    not (str_eq entry.asset "" || not (equal_fold entry.asset perp_asset))
    && not (entry.has_time && not (is_zero last) && not (ltb_ℤ last entry.time))

unfoldable pub newest_receipt : String → ℤ → ℤ → List FundingPayment → ℤ
newest_receipt perp_asset last newest [] = newest
newest_receipt perp_asset last newest (entry ∷ entries) =
    newest_receipt perp_asset last
      (if is_new_receipt perp_asset last entry
          && entry.has_time
          && (is_zero newest || ltb_ℤ newest entry.time)
        then entry.time
        else newest)
      entries

abbrev pub lookback : {F : Type 0} → FundingForecast F → ℤ
lookback forecast =
    let twice = wrap (pos 2 *ℤ forecast.interval) in
    if ltb_ℤ (pos 0) forecast.interval && ltb_ℤ (seconds 21600) twice then twice else seconds 21600

abbrev pub receipts_from : {F : Type 0} → ℤ → FundingForecast F → App F → ℤ
receipts_from now forecast a =
    let start = now -ℤ lookback forecast in
    let candidate = a.last_funding_receipt_at -ℤ seconds 60 in
    if not (is_zero a.last_funding_receipt_at) && ltb_ℤ start candidate then candidate else start

-- The times at which the receipts are asked for.
abbrev pub is_receipt_due : {F : Type 0} → ℤ → FundingForecast F → App F → Bool
is_receipt_due now forecast a =
    forecast.has_next
    && not (is_zero forecast.next_funding)
    && not (ltb_ℤ now (forecast.next_funding +ℤ seconds 15))
    && not (
        not (is_zero a.last_funding_receipt_at)
        && not (ltb_ℤ a.last_funding_receipt_at forecast.next_funding))
    && not (
        not (is_zero a.last_funding_receipt_check)
        && ltb_ℤ (saturate (now -ℤ a.last_funding_receipt_check)) (seconds 30))

module _ {F E : Type 0} ⦃fl : Float64 F⦄ (sv : Services F E) where
  open fl use {abs, le}

  abbrev pub with_receipts : String → Result (List FundingPayment) × E → World F E → World F E
  with_receipts perp_asset (err x, e) w =
      set_env e (set_app (record w.app { funding_receipt_warned = true }) w)
  with_receipts perp_asset (ok entries, e) w =
      let last = w.app.last_funding_receipt_at in
      let newest = newest_receipt perp_asset last zero_time entries in
      set_env e (
        set_app
          (record w.app {
            funding_receipt_warned = false;
            last_funding_receipt_at = if is_zero newest then last else newest;
          })
          w)

  abbrev pub ask_receipts : ℤ → MarketSnapshot F → FundingForecast F → World F E → World F E
  ask_receipts now snap forecast w =
      let a = record w.app { last_funding_receipt_check = now } in
      with_receipts snap.perp_asset
        (sv.user_funding (unix_milli (receipts_from now forecast a)) w.env) (set_app a w)

  unfoldable pub maybe_log_funding_receipt :
      ℤ → MarketSnapshot F → Option (FundingForecast F) → World F E → World F E
  maybe_log_funding_receipt now snap none w = w
  maybe_log_funding_receipt now snap (some forecast) w =
      if le (abs snap.perp_position) flat_epsilon
      then w
      else if is_receipt_due now forecast w.app
      then ask_receipts now snap forecast w
      else w

  abbrev pub with_forecast : Result Bool × E → World F E → World F E
  with_forecast (err x, e) w =
      set_env e (set_app (record w.app { funding_forecast_warned = true }) w)
  with_forecast (ok true, e) w =
      set_env e (set_app (record w.app { funding_forecast_warned = false }) w)
  with_forecast (ok false, e) w = set_env e w

  unfoldable pub refresh_funding_forecast : World F E → World F E
  refresh_funding_forecast w = with_forecast (sv.refresh_funding_forecast w.env) w

  -- Try a name, unless it is empty, and go on with the next one if there is no mid price for it.
  abbrev pub or_else :
      (E → Result (F × SpotContext) × E) → SpotContext → Result F × E → Result (F × SpotContext) × E
  or_else next c (ok mid, e) = (ok (mid, c), e)
  or_else next c (err x, e) = next e

  abbrev pub try_mid :
      String → SpotContext → (E → Result (F × SpotContext) × E) → E → Result (F × SpotContext) × E
  try_mid name c next e = if str_eq name "" then next e else or_else next c (sv.mid name e)

  abbrev pub mid_in : String → Result SpotContext → E → Result (F × SpotContext) × E
  mid_in asset (err x) e = (err x, e)
  mid_in asset (ok c) e =
      try_mid c.mid_key c (try_mid c.symbol c (try_mid asset c (λ e'. (err mid_price_missing, e'))))
        e

  unfoldable pub spot_mid : String → E → Result (F × SpotContext) × E
  spot_mid asset e = mid_in asset (spot_context sv asset e) e
