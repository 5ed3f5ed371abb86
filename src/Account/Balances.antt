-- ===== src/Account/Balances.antt =====
-- internal/account/account.go: the balances, positions and margin of a message, and the balances that a
-- post over the WebSocket answers.
pub mod Ledger
use hyper_basis.Prelude.{
  String, Bool, true, false, ◌&&◌, ◌||◌, not, Option, none, some, List, [], ◌∷◌, str_eq,
  if◌then◌else◌,
}
use hyper_basis.Prelude.Float.{Float64, nought}
use hyper_basis.Prelude.Numerals.{Numerals}
use hyper_basis.Prelude.Dict.{insert}
use hyper_basis.Json.{
  Value, Items, Fields, get, at, null, bool, num, text, arr, obj, nil, cons, end, field,
}
use hyper_basis.Account.Parse.{first_string, float_from_any, string_from_any}

pub record MarginSummary (F : Type 0) : Type 0 where
  pub account_value : F
  pub total_margin_used : F
  pub maintenance_margin : F
  pub margin_ratio : F
  pub health_ratio : F
  pub has_margin_ratio : Bool
  pub has_health_ratio : Bool

abbrev pub Dict : Type 0 → Type 0
Dict F = List (String × F)

module _ {F : Type 0} ⦃fl : Float64 F⦄ ⦃ns : Numerals F⦄ where
  -- The first of these fields that reads as a number.
  unfoldable pub first_float : List String → Fields F → Option F
  first_float [] m = none
  first_float (key ∷ ks) m =
      let rest = first_float ks m in
      elim (float_from_any (at key m)) [ some x ↦ some x | none ↦ rest ]

  abbrev put_balance : String → Option F → Dict F → Dict F
  put_balance asset none balances = balances
  put_balance asset (some x) balances = insert asset x balances

  abbrev pub add_balance : Value F → Dict F → Dict F
  unfolding first_string first_float
  add_balance (obj entry) balances =
      let asset = first_string ("coin" ∷ "token" ∷ "symbol" ∷ []) entry in
      if str_eq asset ""
      then balances
      else put_balance asset (first_float ("total" ∷ "balance" ∷ "available" ∷ []) entry) balances
  add_balance _ balances = balances

  unfoldable pub balance_entries : Items F → Dict F → Dict F
  unfolding add_balance
  balance_entries nil balances = balances
  balance_entries (cons item raw) balances = balance_entries raw (add_balance item balances)

  unfoldable pub parse_balance_entries : Items F → Dict F
  parse_balance_entries raw = balance_entries raw []

  unfoldable pub parse_balances : Fields F → Dict F
  parse_balances payload = elim (at "balances" payload) [
    | arr raw ↦ parse_balance_entries raw
    | _ ↦ []
  ]

  unfoldable mutual
    pub parse_spot_balances : Value F → Option (Dict F)
    parse_spot_balances (obj payload) = elim (get "balances" payload) [
      | some _ ↦ some (parse_balances payload)
      | none ↦ spot_balances_under payload
    ]
    parse_spot_balances (arr raw) = some (parse_balance_entries raw)
    parse_spot_balances _ = none

    -- Those under the field "data".
    pub spot_balances_under : Fields F → Option (Dict F)
    spot_balances_under end = none
    spot_balances_under (field key nested rest) =
        let here = parse_spot_balances nested in
        let there = spot_balances_under rest in if str_eq key "data" then here else there

  abbrev value_of : Option F → F
  value_of none = nought
  value_of (some x) = x

  abbrev is_set : Option F → Bool
  is_set none = false
  is_set (some x) = true

  -- The health that follows from the two numbers, where the message has none.
  abbrev health_of : Option F → Option F → Option F
  health_of (some value) (some maintenance) =
      if fl.lt nought maintenance then some (fl.div value maintenance) else none
  health_of _ _ = none

  abbrev or_health : Option F → Option F → Option F
  or_health (some x) other = some x
  or_health none other = other

  unfoldable pub parse_margin_summary_map : Fields F → MarginSummary F × Bool
  parse_margin_summary_map summary =
      let value =
        first_float ("accountValue" ∷ "accountValueUsd" ∷ "accountValueUSDC" ∷ []) summary in
      let used =
        first_float ("totalMarginUsed" ∷ "totalMarginUsedUsd" ∷ "marginUsed" ∷ []) summary in
      let maintenance =
        first_float ("maintenanceMargin" ∷ "maintenanceMarginUsed" ∷ "maintMargin" ∷ []) summary in
      let ratio = first_float ("marginRatio" ∷ "margin_ratio" ∷ "marginFraction" ∷ []) summary in
      let health =
        or_health (first_float ("health" ∷ "accountHealth" ∷ []) summary)
          (health_of value maintenance) in
      (
        record {
          account_value = value_of value;
          total_margin_used = value_of used;
          maintenance_margin = value_of maintenance;
          margin_ratio = value_of ratio;
          health_ratio = value_of health;
          has_margin_ratio = is_set ratio;
          has_health_ratio = is_set health;
        },
        is_set value || is_set used || is_set maintenance || is_set ratio || is_set health,
      )

  abbrev pub no_summary : MarginSummary F × Bool
  no_summary = (
    record {
      account_value = nought;
      total_margin_used = nought;
      maintenance_margin = nought;
      margin_ratio = nought;
      health_ratio = nought;
      has_margin_ratio = false;
      has_health_ratio = false;
    },
    false,
  )

  unfoldable mutual
    pub parse_margin_summary : Value F → MarginSummary F × Bool
    parse_margin_summary (obj payload) = elim (at "marginSummary" payload) [
      | obj summary ↦ parse_margin_summary_map summary
      | _ ↦ elim (at "crossMarginSummary" payload) [
        | obj summary ↦ parse_margin_summary_map summary
        | _ ↦ margin_summary_under payload
      ]
    ]
    parse_margin_summary _ = no_summary

    pub margin_summary_under : Fields F → MarginSummary F × Bool
    margin_summary_under end = no_summary
    margin_summary_under (field key nested rest) =
        let here = parse_margin_summary nested in
        let there = margin_summary_under rest in
        if str_eq key "data" then (if here.1 then here else no_summary) else there

  -- The position of an entry: an object under "position", else the entry itself.
  abbrev position_of : Fields F → Fields F
  position_of entry = elim (at "position" entry) [ obj nested ↦ nested | _ ↦ entry ]

  abbrev pub add_position : Value F → Dict F → Dict F
  unfolding first_string first_float
  add_position (obj entry) positions =
      let pos = position_of entry in
      let asset = first_string ("coin" ∷ "symbol" ∷ "asset" ∷ []) pos in
      if str_eq asset ""
      then positions
      else insert asset (value_of (first_float ("szi" ∷ "size" ∷ "position" ∷ []) pos)) positions
  add_position _ positions = positions

  unfoldable pub position_entries : Items F → Dict F → Dict F
  unfolding add_position
  position_entries nil positions = positions
  position_entries (cons item raw) positions = position_entries raw (add_position item positions)

  unfoldable pub parse_positions : Fields F → Dict F
  parse_positions payload = elim (at "assetPositions" payload) [
    | arr raw ↦ position_entries raw []
    | _ ↦ []
  ]
