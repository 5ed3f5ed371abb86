-- ===== src/Account/Requests.antt =====
-- internal/account/account.go and fills.go: what the account asks the exchange for. `Clients` are the REST
-- and the WebSocket client of internal/hl; an answer to a post is `none` if it does not decode.
pub mod Refresh
use hyper_basis.Prelude.{
  ℕ, ◌+◌, ◌%◌, ◌^◌, String, Bool, true, false, not, ◌||◌, Option, none, some, List, [], ◌∷◌, str_eq,
  if◌then◌else◌,
}
use hyper_basis.Prelude.Int.{ℤ, pos, leb_ℤ, ltb_ℤ}
use hyper_basis.Prelude.Float.{Float64}
use hyper_basis.Prelude.Numerals.{Numerals}
use hyper_basis.Prelude.Result.{
  Result, ok, err, external, rest_client_required, user_required, start_time_invalid, post_channel,
  post_data_missing, post_response_missing, post_error, post_payload_missing, post_payload_type,
  spot_balances_missing,
}
use hyper_basis.Json.{Value, Fields, at, obj}
use hyper_basis.Account.Parse.{string_from_any}
use hyper_basis.Account.Fills.{Fill}
use hyper_basis.Account.Fills.Parse.{parse_fills}
use hyper_basis.Account.Orders.{parse_open_orders, open_orders_map}
use hyper_basis.Account.Balances.{
  Dict, parse_balances, parse_spot_balances, parse_margin_summary, parse_positions,
}
use hyper_basis.Account.Updates.{State, Account}

-- A request to the info endpoint.
pub record Request : Type 0 where
  pub kind : String
  pub user : String
  pub start_time : Option ℤ
  pub end_time : Option ℤ

-- internal/hl/rest and internal/hl/ws: the answers, on an environment E.
pub record Clients (F E : Type 0) : Type 0 where
  pub has_rest : Bool
  pub has_ws : Bool
  pub info : Request → E → Result (Fields F) × E
  pub info_any : Request → E → Result (Value F) × E
  pub post : ℕ → Request → E → Result (Option (Fields F)) × E

abbrev pub request : String → String → Request
request kind user = record { kind = kind; user = user; start_time = none; end_time = none }

module _ {F : Type 0} ⦃fl : Float64 F⦄ ⦃ns : Numerals F⦄ where
  -- The checks of the answer's last part.
  abbrev post_payload : Value F → Result (Dict F)
  unfolding string_from_any parse_spot_balances
  post_payload (obj payload) =
      if not (str_eq (string_from_any (at "type" payload)) "spotClearinghouseState")
      then err post_payload_type
      else elim (parse_spot_balances (at "data" payload)) [
        | none ↦ err spot_balances_missing
        | some balances ↦ ok balances
      ]
  post_payload _ = err post_payload_missing

  abbrev post_response : Value F → Result (Dict F)
  unfolding post_payload
  post_response (obj response) =
      if str_eq (string_from_any (at "type" response)) "error"
      then err post_error
      else post_payload (at "payload" response)
  post_response _ = err post_response_missing

  abbrev post_data : Value F → Result (Dict F)
  unfolding post_response
  post_data (obj body) = post_response (at "response" body)
  post_data _ = err post_data_missing

  -- Of an answer that decodes.
  unfoldable pub parse_spot_balances_post : Fields F → Result (Dict F)
  unfolding post_data
  parse_spot_balances_post payload =
      if not (str_eq (string_from_any (at "channel" payload)) "post")
      then err post_channel
      else post_data (at "data" payload)

  abbrev refreshed : ℤ → Account F → Result (Dict F) → Result (Unit {0}) × Account F
  refreshed now a (err e) = (err e, a)
  refreshed now a (ok balances) = (
    ok tt,
    record a {
      state = record a.state { spot_balances = balances };
      has_spot_state_snapshot = true;
      last_update = now;
    },
  )

  abbrev parse_answer : Result (Option (Fields F)) → Result (Dict F)
  unfolding parse_spot_balances_post
  parse_answer (err e) = err e
  parse_answer (ok none) = err (external "invalid JSON")
  parse_answer (ok (some payload)) = parse_spot_balances_post payload

  -- The state that three answers describe.
  unfoldable pub state_from : Fields F → Fields F → Value F → State F
  unfolding parse_balances parse_positions parse_open_orders parse_margin_summary
  state_from spot perp orders =
      let (summary, has) = parse_margin_summary (obj perp) in
      record {
        spot_balances = parse_balances spot;
        perp_position = parse_positions perp;
        open_orders = parse_open_orders orders;
        margin_summary = summary;
        has_margin_summary = has;
      }

  unfoldable pub take_over : ℤ → State F → Account F → Account F
  unfolding open_orders_map
  take_over now s a = record a {
    state = s;
    open_orders = open_orders_map s.open_orders;
    has_open_orders_snapshot = true;
    has_perp_state_snapshot = true;
    has_spot_state_snapshot = true;
    last_update = now;
  }

module _ {F E : Type 0} ⦃fl : Float64 F⦄ ⦃ns : Numerals F⦄ (clients : Clients F E) where
  -- `RefreshSpotBalancesWS`
  unfoldable pub refresh_spot_balances_ws : ℤ → Account F → E → Result (Unit {0}) × Account F × E
  unfolding parse_answer
  refresh_spot_balances_ws now a e =
      let id = (a.spot_post_id + 1) % 2 ^ 64 in
      let (answer, after) = clients.post id (request "spotClearinghouseState" a.user) e in
      let (r, b) = refreshed now (record a { spot_post_id = id }) (parse_answer answer) in
      if not clients.has_ws
      then (ok tt, a, e)
      else if str_eq a.user ""
      then (err user_required, a, e)
      else (r, b, after)

  unfoldable pub with_answers :
      ℤ → Account F → Fields F → Fields F → Result (Value F) × E → Result (State F) × Account F × E
  with_answers now a spot perp (ok orders, e) =
      let s = state_from spot perp orders in (ok s, take_over now s a, e)
  with_answers now a spot perp (err x, e) = (err x, a, e)

  unfoldable pub with_perp_answer :
      ℤ → Account F → Fields F → Result (Fields F) × E → Result (State F) × Account F × E
  with_perp_answer now a spot (ok perp, e) =
      with_answers now a spot perp (clients.info_any (request "openOrders" a.user) e)
  with_perp_answer now a spot (err x, e) = (err x, a, e)

  unfoldable pub with_spot_answer :
      ℤ → Account F → Result (Fields F) × E → Result (State F) × Account F × E
  with_spot_answer now a (ok spot, e) =
      with_perp_answer now a spot (clients.info (request "clearinghouseState" a.user) e)
  with_spot_answer now a (err x, e) = (err x, a, e)

  -- `Reconcile`
  unfoldable pub reconcile : ℤ → Account F → E → Result (State F) × Account F × E
  reconcile now a e =
      if clients.has_rest
      then with_spot_answer now a (clients.info (request "spotClearinghouseState" a.user) e)
      else (err rest_client_required, a, e)

  abbrev fills_answer : Result (Value F) × E → Result (List (Fill F)) × E
  unfolding parse_fills
  fills_answer (ok v, e) = (ok (parse_fills v), e)
  fills_answer (err x, e) = (err x, e)

  -- `UserFillsByTime`
  unfoldable pub user_fills_by_time : ℤ → ℤ → Account F → E → Result (List (Fill F)) × E
  unfolding fills_answer
  user_fills_by_time start end a e =
      let req : Request = record {
        kind = "userFillsByTime";
        user = a.user;
        start_time = some start;
        end_time = if ltb_ℤ (pos 0) end then some end else none;
      } in
      if not clients.has_rest
      then (err rest_client_required, e)
      else if str_eq a.user ""
      then (err user_required, e)
      else if leb_ℤ start (pos 0)
      then (err start_time_invalid, e)
      else fills_answer (clients.info_any req e)

  abbrev orders_answer : Result (Value F) × E → Result (List (Fields F)) × E
  unfolding parse_open_orders
  orders_answer (ok v, e) = (ok (parse_open_orders v), e)
  orders_answer (err x, e) = (err x, e)

  -- `OpenOrders`
  unfoldable pub open_orders : Account F → E → Result (List (Fields F)) × E
  unfolding orders_answer
  open_orders a e =
      if not clients.has_rest
      then (err rest_client_required, e)
      else if str_eq a.user ""
      then (err user_required, e)
      else orders_answer (clients.info_any (request "openOrders" a.user) e)
