-- ===== src/Account/Updates.antt =====
-- internal/account/account.go and fills.go: the account and its operations, each under the lock as one
-- step. `now` is the clock, `none` as a result the panic of an assignment to a nil map. Left out is what
-- is kept for debugging only, `LastRawUpdate` and `lastClearinghouseState`. A message is `none` if it
-- does not decode.
pub mod Panics
use hyper_basis.Prelude.{
  ℕ, ◌+◌, ◌%◌, ◌^◌, String, Bool, true, false, ◌&&◌, ◌||◌, not, Option, none, some, List, [], ◌∷◌,
  str_eq, if◌then◌else◌,
}
use hyper_basis.Prelude.Int.{ℤ, pos, leb_ℤ, ltb_ℤ}
use hyper_basis.Prelude.Float.{Float64, nought}
use hyper_basis.Prelude.Numerals.{Numerals}
use hyper_basis.Prelude.Result.{
  Result, ok, err, rest_client_required, user_required, start_time_invalid, post_channel,
  post_data_missing, post_response_missing, post_error, post_payload_missing, post_payload_type,
  spot_balances_missing,
}
use hyper_basis.Prelude.Text.{trim_space}
use hyper_basis.Prelude.Dict.{insert, delete}
use hyper_basis.Json.{Value, Fields, at, obj}
use hyper_basis.Account.Parse.{string_from_any, snapshot_flag, is_snapshot}
use hyper_basis.Account.Fills.{Fill, FillBook, add_fills, no_fills}
use hyper_basis.Account.Fills.Parse.{parse_fills}
use hyper_basis.Account.Orders.{
  OrderMap, parse_open_orders, open_orders_map, open_orders_slice, merge_orders, or_map,
}
use hyper_basis.Account.Balances.{
  MarginSummary, Dict, no_summary, parse_balances, parse_spot_balances, parse_margin_summary,
  parse_positions,
}
use hyper_basis.Account.Balances.Ledger.{parse_ledger_updates, ledger_snapshot, move_balances}

pub record State (F : Type 0) : Type 0 where
  pub spot_balances : Dict F
  pub perp_position : Dict F
  pub open_orders : List (Fields F)
  pub margin_summary : MarginSummary F
  pub has_margin_summary : Bool

pub record Account (F : Type 0) : Type 0 where
  pub user : String
  pub state : State F
  pub open_orders : Option (OrderMap F)
  pub fills_enabled : Bool
  pub book : FillBook F
  pub has_open_orders_snapshot : Bool
  pub has_perp_state_snapshot : Bool
  pub has_spot_state_snapshot : Bool
  pub spot_post_id : ℕ
  pub last_update : ℤ

abbrev pub is_nil : {A : Type 0} → List A → Bool
is_nil [] = true
is_nil _ = false

abbrev pub is_flagged : Option Bool → Bool
is_flagged none = false
is_flagged (some _) = true

module _ {F : Type 0} where
  -- `openOrdersSlice`, of a map that may be nil.
  abbrev pub slice_of : Option (OrderMap F) → List (Fields F)
  unfolding open_orders_slice
  slice_of none = []
  slice_of (some dict) = open_orders_slice dict

  abbrev pub with_orders : ℤ → Option (OrderMap F) → Account F → Account F
  unfolding slice_of
  with_orders now dict a = record a {
    open_orders = dict;
    state = record a.state { open_orders = slice_of dict };
    has_open_orders_snapshot = true;
    last_update = now;
  }

  abbrev pub merged : ℤ → Account F → Option (Option (OrderMap F)) → Option (Account F)
  unfolding with_orders
  merged now a none = none
  merged now a (some dict) = some (with_orders now dict a)

module _ {F : Type 0} ⦃fl : Float64 F⦄ ⦃ns : Numerals F⦄ where
  -- `New`
  unfoldable pub new_account : String → ℤ → Account F
  new_account user zero_time = record {
    user = trim_space user;
    state = record {
      spot_balances = [];
      perp_position = [];
      open_orders = [];
      margin_summary = no_summary.0;
      has_margin_summary = false;
    };
    open_orders = none;
    fills_enabled = false;
    book = no_fills;
    has_open_orders_snapshot = false;
    has_perp_state_snapshot = false;
    has_spot_state_snapshot = false;
    spot_post_id = 0;
    last_update = zero_time;
  }

  unfoldable pub apply_open_orders_update : ℤ → Value F → Account F → Option (Account F)
  unfolding with_orders merged
  apply_open_orders_update now data_ a =
      let orders = parse_open_orders data_ in
      let flag = snapshot_flag data_ in
      if is_nil orders && not (is_flagged flag)
      then some a
      else if is_snapshot flag || not a.has_open_orders_snapshot
      then some (with_orders now (open_orders_map orders) a)
      else merged now a
          (merge_orders orders (or_map a.open_orders (open_orders_map a.state.open_orders)))

  unfoldable pub merge_positions : Dict F → Dict F → Dict F
  merge_positions [] held = held
  merge_positions ((asset, size) ∷ positions) held =
      merge_positions positions
        (if fl.eq size nought then delete asset held else insert asset size held)

  -- The positions of the message, or of the object under "data" if it has none itself.
  abbrev or_nested_positions : Dict F → Fields F → Dict F
  unfolding parse_positions
  or_nested_positions [] payload = elim (at "data" payload) [
    | obj nested ↦ parse_positions nested
    | _ ↦ []
  ]
  or_nested_positions positions payload = positions

  abbrev with_margin : MarginSummary F × Bool → State F → State F
  with_margin (summary, has) s =
      if has then record s { margin_summary = summary; has_margin_summary = true } else s

  abbrev clearinghouse : ℤ → Fields F → Account F → Account F
  unfolding or_nested_positions merge_positions
  clearinghouse now payload a =
      let flag = snapshot_flag (obj payload) in
      let positions = or_nested_positions (parse_positions payload) payload in
      let margin = parse_margin_summary (obj payload) in
      let held =
        if is_snapshot flag || not a.has_perp_state_snapshot
        then positions
        else merge_positions positions a.state.perp_position in
      if is_nil positions && not (is_flagged flag) && not margin.1 then a else record a {
        state = with_margin margin (record a.state { perp_position = held });
        has_perp_state_snapshot = true;
        last_update = now;
      }

  unfoldable pub apply_clearinghouse_update : ℤ → Value F → Account F → Account F
  unfolding clearinghouse
  apply_clearinghouse_update now (obj payload) a = clearinghouse now payload a
  apply_clearinghouse_update now _ a = a

  unfoldable pub apply_user_fills_update : ℤ → Value F → Account F → Account F
  apply_user_fills_update now data_ a =
      let fills = parse_fills data_ in
      if is_nil fills then a else record a { book = add_fills fills a.book; last_update = now }

  unfoldable pub apply_ledger_updates : ℤ → Value F → Account F → Account F
  apply_ledger_updates now data_ a =
      let updates = parse_ledger_updates data_ in
      if is_nil updates
      then a
      else if ledger_snapshot data_ || not a.has_spot_state_snapshot
      then record a { last_update = now }
      else record a {
        state = record a.state {
          spot_balances = move_balances updates a.user a.state.spot_balances;
        };
        last_update = now;
      }

  unfoldable pub handle_message : ℤ → Option (Fields F) → Account F → Option (Account F)
  handle_message now none a = some a
  handle_message now (some payload) a =
      let channel = string_from_any (at "channel" payload) in
      let body = at "data" payload in
      if str_eq channel "openOrders"
      then apply_open_orders_update now body a
      else if str_eq channel "clearinghouseState"
      then some (apply_clearinghouse_update now body a)
      else if str_eq channel "userFills"
      then some (apply_user_fills_update now body a)
      else if str_eq channel "userNonFundingLedgerUpdates"
      then some (apply_ledger_updates now body a)
      else some a
