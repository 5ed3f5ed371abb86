-- ===== src/Examples/Messages.antt =====
-- Numbers as decimal text, and messages of the exchange, for the theorems on the account.
use Prim.Native.Char.{code}
use Prim.Native.String.{◌++◌ as append}
use hyper_basis.Prelude.{
  ℕ, zero, suc, ◌+◌, ◌-◌, ◌*◌, ◌/◌, ◌%◌, String, true, false, ◌&&◌, Option, none, some, [], ◌∷◌,
  leb, ◌==◌, if◌then◌else◌,
}
use hyper_basis.Prelude.Int.{ℤ, pos, negsuc, floor_div}
use hyper_basis.Prelude.Float.{Fixed, fixed, unit}
use hyper_basis.Prelude.Numerals.{Numerals}
use hyper_basis.Prelude.Result.{ok}
use hyper_basis.Account.Requests.{Clients}
use hyper_basis.Json.{Value, Items, Fields, text, num, bool, arr, obj, nil, cons, end, field}
use hyper_basis.Account.Fills.{Fill, no_fills}
use hyper_basis.Account.Updates.{Account}
use hyper_basis.Examples.Bench.{units}

abbrev digit : ℕ → String
digit n =
    if n == 0
    then "0"
    else if n == 1
    then "1"
    else if n == 2
    then "2"
    else if n == 3
    then "3"
    else if n == 4
    then "4"
    else if n == 5
    then "5"
    else if n == 6
    then "6"
    else if n == 7
    then "7"
    else if n == 8
    then "8"
    else "9"

-- The last digits of n, at most as many as the fuel.
abbrev pub digits : ℕ → ℕ → String
digits zero n = ""
digits (suc fuel) n =
    let more = digits fuel (n / 10) in append (if leb 10 n then more else "") (digit (n % 10))

abbrev read_digits : ℕ → String → Option ℕ
read_digits n String.[] = some n
read_digits n (String.◌∷◌ c s) =
    if leb 48 (code c) && leb (code c) 57 then read_digits (n * 10 + (code c - 48)) s else none

abbrev read_nat : String → Option ℕ
read_nat String.[] = none
read_nat s = read_digits 0 s

abbrev pub show : ℤ → String
show (pos n) = digits 20 n
show (negsuc n) = append "-" (digits 20 (suc n))

instance abbrev pub decimal : Numerals Fixed
decimal = record {
  parse_float = λ s. elim (read_nat s) [ none ↦ none | some n ↦ some (pos (n * unit)) ];
  format_whole = λ x. show (floor_div x unit);
  format_twelve = show;
  to_int = λ x. floor_div x unit;
  parse_int = λ s. elim (read_nat s) [ none ↦ none | some n ↦ some (pos n) ];
  format_int = show;
  parse_duration = λ s. elim (read_nat s) [ none ↦ none | some n ↦ some (pos n) ];
}

abbrev pub fill_of : String → ℕ → String → Fill Fixed
fill_of order size hash = record {
  order_id = order;
  asset = "UBTC";
  side = "B";
  size = units size;
  price = units 100;
  time_ms = pos 5;
  hash = hash;
}

-- An order of a message, with its id and its status.
abbrev pub order_value : ℕ → String → Value Fixed
order_value id status = obj (field "oid" (num (units id)) (field "status" (text status) end))

-- An update of the open orders that is no snapshot.
abbrev pub orders_message : Items Fixed → Value Fixed
orders_message list = obj (field "isSnapshot" (bool false) (field "orders" (arr list) end))

-- An account after a snapshot without orders.
abbrev pub empty_account : Account Fixed
empty_account = record {
  user = "0xabc";
  state = record {
    spot_balances = [];
    perp_position = [];
    open_orders = [];
    margin_summary = record {
      account_value = pos 0;
      total_margin_used = pos 0;
      maintenance_margin = pos 0;
      margin_ratio = pos 0;
      health_ratio = pos 0;
      has_margin_ratio = false;
      has_health_ratio = false;
    };
    has_margin_summary = false;
  };
  open_orders = none;
  fills_enabled = true;
  book = no_fills;
  has_open_orders_snapshot = true;
  has_perp_state_snapshot = true;
  has_spot_state_snapshot = true;
  spot_post_id = 0;
  last_update = pos 0;
}

-- The fields of an open order.
abbrev pub open_order : Fields Fixed
open_order = field "oid" (num (units 4)) (field "status" (text "open") end)

-- An account that holds this order.
abbrev pub holding_account : Account Fixed
holding_account = record empty_account {
  state = record empty_account.state { open_orders = open_order ∷ [] };
  open_orders = some (("4", open_order) ∷ []);
}

-- The fields of an open order with this id.
abbrev pub order_fields : ℕ → Fields Fixed
order_fields id = field "oid" (num (units id)) (field "status" (text "open") end)

-- An exchange without balances and positions, and with two open orders; it counts the requests.
abbrev pub answering_clients : Clients Fixed ℕ
answering_clients = record {
  has_rest = true;
  has_ws = true;
  info = λ r n. (ok end, suc n);
  info_any =
      λ r n. (ok (arr (cons (obj (order_fields 1)) (cons (obj (order_fields 2)) nil))), suc n);
  post = λ id r n. (ok none, suc n);
}
