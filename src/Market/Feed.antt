-- ===== src/Market/Feed.antt =====
-- internal/market/marketdata.go: mid prices and candles from the
-- WebSocket. `sqrt` stands for `math.Sqrt`, which Go's library has.
use Prim.Native.String.{◌++◌ as append}
use hyper_basis.Prelude.{
  ℕ, suc, zero, ◌-◌, String, Bool, true, false, Option, none, some, List, [], ◌∷◌, ◌++◌, str_eq,
  ltb, length, if◌then◌else◌,
}
use hyper_basis.Prelude.Int.{ℤ, pos, negsuc, is_zero, zero_time}
use hyper_basis.Prelude.Float.{Float64, nought}
use hyper_basis.Prelude.Numerals.{Numerals}
use hyper_basis.Prelude.Dict.{insert, lookup}
use hyper_basis.Prelude.Result.{Result, ok, err, external}
use hyper_basis.Json.{Value, Fields, get, at, obj, end, field}
use hyper_basis.Account.Parse.{float_from_any}
use hyper_basis.Market.Candles.{Candle, parse_candle, parse_candle_ohlc}

-- The part of `MarketData` that these messages change, and the settings of the candles.
pub record Feed (F : Type 0) : Type 0 where
  pub mid_prices : List (String × F)
  pub last_mid_update : ℤ
  pub volatility : List (String × F)
  pub candle_closes : List (String × List F)
  pub last_candles : List (String × Candle F)
  pub candle_asset : String
  pub candle_interval : String
  pub candle_window : ℕ

abbrev pub new_feed : {F : Type 0} → Feed F
new_feed = record {
  mid_prices = [];
  last_mid_update = zero_time;
  volatility = [];
  candle_closes = [];
  last_candles = [];
  candle_asset = "";
  candle_interval = "1h";
  candle_window = 20;
}

-- A window that is more than nothing replaces the one there is.
abbrev window_or : ℤ → ℕ → ℕ
window_or (pos zero) w = w
window_or (pos (suc n)) w = suc n
window_or (negsuc n) w = w

unfoldable pub candle_key : String → String → String
candle_key asset interval = if str_eq interval "" then asset else append asset (append "|" interval)

-- A list without its first `n`.
unfoldable pub skip {ℓ} : {A : Type ℓ} → ℕ → List A → List A
skip zero xs = xs
skip (suc n) [] = []
skip (suc n) (x ∷ xs) = skip n xs

unfoldable pub keep_last {ℓ} : {A : Type ℓ} → ℕ → List A → List A
unfolding skip
keep_last n xs = if ltb n (length xs) then skip (length xs - n) xs else xs

module _ {F : Type 0} where
  unfoldable pub enable_candle : String → String → ℤ → Feed F → Feed F
  enable_candle asset interval window m = record m {
    candle_asset = asset;
    candle_interval = if str_eq interval "" then m.candle_interval else interval;
    candle_window = window_or window m.candle_window;
  }

  unfoldable pub latest_candle : String → Feed F → Option (Candle F)
  unfolding candle_key
  latest_candle asset m = lookup (candle_key asset m.candle_interval) m.last_candles

module _ {F : Type 0} ⦃fl : Float64 F⦄ ⦃ns : Numerals F⦄ where
  -- What a candle does not say is filled in.
  unfoldable pub fill_in : ℤ → String → Candle F → Candle F
  fill_in now interval c = record c {
    interval = if str_eq c.interval "" then interval else c.interval;
    «open» = if fl.eq c.«open» nought then c.close else c.«open»;
    high = if fl.eq c.high nought then c.close else c.high;
    low = if fl.eq c.low nought then c.close else c.low;
    start = if is_zero c.start then now else c.start;
  }

  unfoldable pub store_candle : ℤ → Option (Candle F) → Feed F → Feed F
  unfolding fill_in candle_key
  store_candle now none m = m
  store_candle now (some parsed) m =
      let c = fill_in now m.candle_interval parsed in
      record m { last_candles = insert (candle_key c.asset c.interval) c m.last_candles }

  -- The sums of the returns, of their squares and of their number.
  unfoldable pub sum_returns : List F → F → F → F → F × F × F
  sum_returns (prev ∷ curr ∷ closes) sum sum_sq count =
      let r = fl.div (fl.sub curr prev) prev in
      let skipped = sum_returns (curr ∷ closes) sum sum_sq count in
      let counted =
        sum_returns (curr ∷ closes) (fl.add sum r) (fl.add sum_sq (fl.mul r r))
          (fl.add count (fl.lit 1 0)) in
      if fl.eq prev nought then skipped else counted
  sum_returns _ sum sum_sq count = (sum, sum_sq, count)

  unfoldable pub compute_volatility : (F → F) → List F → F
  unfolding sum_returns
  compute_volatility sqrt closes =
      let (sum, sum_sq, count) = sum_returns closes nought nought nought in
      if ltb (length closes) 2
      then nought
      else if fl.eq count nought
      then nought
      else let mean = fl.div sum count in
        let variance = fl.sub (fl.div sum_sq count) (fl.mul mean mean) in
        sqrt (if fl.lt variance nought then nought else variance)

  abbrev or_no_closes : Option (List F) → List F
  or_no_closes none = []
  or_no_closes (some xs) = xs

  unfoldable pub store_close : (F → F) → Option (String × F) → Feed F → Feed F
  unfolding keep_last compute_volatility
  store_close sqrt none m = m
  store_close sqrt (some (asset, close)) m =
      let closes =
        keep_last m.candle_window (or_no_closes (lookup asset m.candle_closes) ++ (close ∷ [])) in
      record m {
        candle_closes = insert asset closes m.candle_closes;
        volatility = insert asset (compute_volatility sqrt closes) m.volatility;
      }

  unfoldable pub update_candle : (F → F) → ℤ → Fields F → Feed F → Feed F
  unfolding parse_candle parse_candle_ohlc
  update_candle sqrt now payload m =
      store_close sqrt (parse_candle payload) (store_candle now (parse_candle_ohlc payload) m)

  -- Every mid price that reads as a number, and whether there is one.
  unfoldable pub set_mids : Fields F → List (String × F) → Bool × List (String × F)
  set_mids end mids = (false, mids)
  set_mids (field asset v rest) mids = elim (float_from_any v) [
    | some x ↦ (true, (set_mids rest (insert asset x mids)).1)
    | none ↦ set_mids rest mids
  ]

  abbrev mids_in : Value F → Option (Fields F)
  mids_in (obj m) = some m
  mids_in _ = none

  abbrev data_mids : Value F → Option (Fields F)
  data_mids (obj inner) = mids_in (at "mids" inner)
  data_mids _ = none

  -- Without a field `data`, the message itself is the map.
  abbrev flat_mids : Fields F → Option (Fields F)
  flat_mids payload = elim (get "data" payload) [ none ↦ some payload | some _ ↦ none ]

  unfoldable pub mids_of : Fields F → Option (Fields F)
  mids_of payload = elim (data_mids (at "data" payload)) [
    | some mids ↦ some mids
    | none ↦ elim (mids_in (at "mids" payload)) [ some mids ↦ some mids | none ↦ flat_mids payload ]
  ]

  unfoldable pub update_mids : ℤ → Fields F → Feed F → Feed F
  unfolding mids_of set_mids
  update_mids now payload m = elim (mids_of payload) [
    | none ↦ m
    | some found ↦
        (let (updated, mids) = set_mids found m.mid_prices in
          record m {
            mid_prices = mids;
            last_mid_update = if updated then now else m.last_mid_update;
          })
  ]

  -- `handleMessage`, which reads the clock once for the mid prices and once for the candle. A message
  -- that is no map changes nothing.
  unfoldable pub handle_message : (F → F) → (mids_at candle_at : ℤ) → Value F → Feed F → Feed F
  unfolding update_mids update_candle
  handle_message sqrt mids_at candle_at (obj payload) m =
      update_candle sqrt candle_at payload (update_mids mids_at payload m)
  handle_message sqrt mids_at candle_at _ m = m

  abbrev or_not_found : Option F → Result F
  or_not_found none = err (external "mid price not found")
  or_not_found (some x) = ok x

  unfoldable pub refreshed_mid :
      {E : Type 0} → ℤ → String → Feed F → Result (Fields F) × E → Result F × Feed F × E
  unfolding update_mids
  refreshed_mid now asset m (err x, e) = (err x, m, e)
  refreshed_mid now asset m (ok resp, e) =
      let next = update_mids now resp m in (or_not_found (lookup asset next.mid_prices), next, e)

  -- `Mid`: `ask` requests all mid prices from the REST client.
  unfoldable pub mid :
      {E : Type 0} → (E → Result (Fields F) × E) → ℤ → String → Feed F → E → Result F × Feed F × E
  unfolding refreshed_mid
  mid ask now asset m e = elim (lookup asset m.mid_prices) [
    | some x ↦ (ok x, m, e)
    | none ↦ refreshed_mid now asset m (ask e)
  ]
