-- ===== src/Market/Candles.antt =====
-- internal/market/parse_helpers.go and internal/market/candle.go: messages about candles.
use hyper_basis.Prelude.{String, ◌||◌, Option, none, some, List, [], ◌∷◌, str_eq, if◌then◌else◌}
use hyper_basis.Prelude.Int.{ℤ, zero_time}
use hyper_basis.Prelude.Float.{Float64, nought}
use hyper_basis.Prelude.Numerals.{Numerals}
use hyper_basis.Json.{Value, Fields, at, obj}
use hyper_basis.Account.Balances.{first_float}
use hyper_basis.Account.Funding.{time_from_any}
use hyper_basis.Market.Funding.{first_text}

pub record Candle (F : Type 0) : Type 0 where
  pub asset : String
  pub interval : String
  pub start : ℤ
  pub «open» : F
  pub high : F
  pub low : F
  pub close : F
  pub volume : F

module _ {F : Type 0} where
  abbrev nested_fields : Fields F → Value F → Fields F
  nested_fields _ (obj inner) = inner
  nested_fields outer _ = outer

module _ {F : Type 0} ⦃fl : Float64 F⦄ ⦃ns : Numerals F⦄ where
  abbrev or_nought : Option F → F
  or_nought none = nought
  or_nought (some x) = x

  unfoldable pub float_from_map : List String → Fields F → F
  float_from_map keys m = or_nought (first_float keys m)

  abbrev start_of : Fields F → Fields F → ℤ
  start_of candle outer = elim (time_from_any (at "t" candle)) [
    | some t ↦ t
    | none ↦ elim (time_from_any (at "time" candle)) [
      | some t ↦ t
      | none ↦ elim (time_from_any (at "startTime" candle)) [
        | some t ↦ t
        | none ↦ elim (time_from_any (at "t" outer)) [ some t ↦ t | none ↦ zero_time ]
      ]
    ]
  ]

  -- The asset and the close of a message about a candle.
  unfoldable pub parse_candle : Fields F → Option (String × F)
  parse_candle payload = elim (at "data" payload) [
    | obj outer ↦
        (let asset = first_text ("coin" ∷ "symbol" ∷ "asset" ∷ "s" ∷ []) outer in
          let candle = nested_fields outer (at "candle" outer) in
          let close = float_from_map ("c" ∷ "close" ∷ "cls" ∷ "price" ∷ []) candle in
          if str_eq asset "" || fl.eq close nought then none else some (asset, close))
    | _ ↦ none
  ]

  -- The interval of a candle may stand in the message or in the candle.
  abbrev interval_in : Fields F → Fields F → String
  interval_in outer candle =
      let named = first_text ("interval" ∷ "timeframe" ∷ "i" ∷ []) outer in
      if str_eq named "" then first_text ("interval" ∷ "timeframe" ∷ "i" ∷ []) candle else named

  unfoldable pub parse_candle_ohlc : Fields F → Option (Candle F)
  parse_candle_ohlc payload = elim (at "data" payload) [
    | obj outer ↦
        (let asset = first_text ("coin" ∷ "symbol" ∷ "asset" ∷ "s" ∷ []) outer in
          let candle = nested_fields outer (at "candle" outer) in
          let close = float_from_map ("c" ∷ "close" ∷ "cls" ∷ "price" ∷ []) candle in
          if str_eq asset "" || fl.eq close nought
          then none
          else some (record {
            asset = asset;
            interval = interval_in outer candle;
            start = start_of candle outer;
            «open» = float_from_map ("o" ∷ "open" ∷ []) candle;
            high = float_from_map ("h" ∷ "high" ∷ []) candle;
            low = float_from_map ("l" ∷ "low" ∷ []) candle;
            close = close;
            volume = float_from_map ("v" ∷ "volume" ∷ "vol" ∷ []) candle;
          }))
    | _ ↦ none
  ]
