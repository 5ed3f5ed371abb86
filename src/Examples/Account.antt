-- ===== src/Examples/Account.antt =====
-- The account at concrete inputs.
use hyper_basis.Prelude.{
  ℕ, zero, suc, ◌≤◌, ◌≡◌, ◌≢◌, ◌↔◌, refl, String, true, false, none, some, List, [], ◌∷◌, arith,
  length, str_eq,
}
use hyper_basis.Prelude.Int.{pos}
use hyper_basis.Prelude.Float.{Fixed, fixed}
use hyper_basis.Prelude.Result.{Result}
use hyper_basis.Prelude.Dict.{count, has, remove, keys, lookup, insert, delete}
use hyper_basis.Prelude.Text.{trim_space, trim_left, trim_right}
use hyper_basis.Json.{Value, get, nil, cons}
use hyper_basis.Account.Parse.{
  snapshot_flag, is_snapshot, bool_from_any, order_id_from_order, first_string, string_from_any,
  order_is_terminal,
}
use hyper_basis.Account.Fills.{
  Fill, no_fills, is_old, size_or_zero, add_fills, record_fills, record_fill,
}
use hyper_basis.Account.Fills.Bounds.{Same, IsConsistent, add_fills-IsConsistent}
use hyper_basis.Account.Fills.Once.{fresh, total, record_fills-total, add_fills_again}
use hyper_basis.Account.Fills.Newest.{Split, latest, orders_of, add_fills-Split}
use hyper_basis.Account.Orders.{
  OrderMap, parse_open_orders, open_orders_slice, normalize_orders, extract_orders, first_list,
  merge_orders, merge_order, open_orders_map, put_orders,
}
use hyper_basis.Account.Orders.Reports.{last_report}
use hyper_basis.Account.Updates.{State, Account, apply_open_orders_update}
use hyper_basis.Account.Updates.Panics.{
  any_stored, is_nil_map, map_before, apply_open_orders_update_panics,
  apply_open_orders_update_reports,
}
use hyper_basis.Account.Requests.{
  reconcile, with_spot_answer, with_perp_answer, with_answers, take_over, state_from,
}
use hyper_basis.Account.Requests.Refresh.{Whole, reconcile-Whole}
use hyper_basis.Examples.Messages.{
  show, decimal, fill_of, order_value, orders_message, empty_account, open_order, holding_account,
  answering_clients, order_fields,
}

-- Two fills of one order, the first of which comes twice.
abbrev fills : List (Fill Fixed)
fills = fill_of "7" 2 "a" ∷ fill_of "7" 2 "a" ∷ fill_of "7" 3 "" ∷ []

no_strings-Same : Same [] []
unfolding count
no_strings-Same = record { counts = λ k. refl; once = λ k. omega arith; lengths = refl }

no_fills-IsConsistent : IsConsistent {F = Fixed} no_fills
unfolding keys
no_fills-IsConsistent = record {
  seen = no_strings-Same;
  elems = no_strings-Same;
  sizes = no_strings-Same;
}

add_fills-IsConsistent_example :
    IsConsistent (add_fills fills no_fills)
    × (fills ≢ []
        → (length (add_fills fills no_fills).seen_fill_order ≤ 2000)
          × (length (add_fills fills no_fills).fills_by_order_id ≤ 2000))
add_fills-IsConsistent_example = add_fills-IsConsistent fills no_fills no_fills-IsConsistent

record_fills-total_example :
    size_or_zero (lookup "7" (record_fills fills no_fills).fills_by_order_id)
    ≡ total "7" (size_or_zero (lookup "7" [])) (fresh [] fills)
record_fills-total_example = record_fills-total "7" fills no_fills

add_fills_again_example : add_fills fills (add_fills fills no_fills) ≡ add_fills fills no_fills
unfolding record_fills record_fill is_old has count keys fixed lookup insert delete remove
add_fills_again_example = add_fills_again fills no_fills (omega arith) (omega arith)

-- Fills of n orders.
unfoldable numbered : ℕ → List (Fill Fixed)
numbered zero = []
numbered (suc n) = fill_of (show (pos n)) 1 (show (pos n)) ∷ numbered n

abbrev oldest : Fill Fixed
oldest = fill_of "oldest" 1 "a"

-- One order too many.
add_fills-Split_example :
    Split
      (latest (orders_of (fresh [] (oldest ∷ numbered 2000))))
      (add_fills (oldest ∷ numbered 2000) no_fills).fill_order_list
      (record_fills (oldest ∷ numbered 2000) no_fills).fills_by_order_id
      (add_fills (oldest ∷ numbered 2000) no_fills).fills_by_order_id
add_fills-Split_example = add_fills-Split oldest (numbered 2000) no_fills no_fills-IsConsistent

-- An order with a new fill moves behind one without.
moved_back :
    latest ("7" ∷ "8" ∷ orders_of (fresh [] (fill_of "7" 1 "a" ∷ fill_of "9" 1 "b" ∷ [])))
    ≡ "8" ∷ "7" ∷ "9" ∷ []
unfolding latest orders_of fresh count fixed
moved_back = refl

abbrev orders_update : Value Fixed
orders_update = orders_message (cons (order_value 1 "open") (cons (order_value 2 "filled") nil))

apply_open_orders_update_panics_example :
    (apply_open_orders_update (pos 9) orders_update empty_account ≡ none) ↔ (
      (is_snapshot (snapshot_flag orders_update) ≡ false)
      × (empty_account.has_open_orders_snapshot ≡ true)
      × (is_nil_map (map_before empty_account) ≡ true)
      × (any_stored (parse_open_orders orders_update) ≡ true))
apply_open_orders_update_panics_example =
    apply_open_orders_update_panics (pos 9) orders_update empty_account

-- Without orders before it, the update of an open order panics.
panics : apply_open_orders_update (pos 9) orders_update empty_account ≡ none
unfolding apply_open_orders_update snapshot_flag bool_from_any get any_stored order_id_from_order
    first_string string_from_any trim_space trim_left trim_right parse_open_orders normalize_orders
    extract_orders first_list order_is_terminal merge_orders merge_order open_orders_map fixed
panics = refl

apply_open_orders_update_reports_example :
    (b : Account Fixed) × (after : OrderMap Fixed) × (apply_open_orders_update
        (pos 9)
        orders_update
        holding_account
      ≡ some b)
    × (b.open_orders ≡ some after)
    × (b.state.open_orders ≡ open_orders_slice after)
    × ((id : String)
        → str_eq id "" ≡ false
        → lookup id after
          ≡ last_report id (lookup id (("4", open_order) ∷ [])) (parse_open_orders orders_update))
unfolding snapshot_flag bool_from_any get open_orders_slice
apply_open_orders_update_reports_example =
    apply_open_orders_update_reports (pos 9) orders_update holding_account (("4", open_order) ∷ [])
      refl refl refl refl

reconcile-Whole_example :
    let (r, b, _) = reconcile answering_clients (pos 9) holding_account 0 in
    Whole answering_clients (pos 9) holding_account 0 r b
reconcile-Whole_example = reconcile-Whole answering_clients (pos 9) holding_account 0

-- That reconciliation takes over the two orders of the last answer.
abbrev taken_over : Result (State Fixed) × Account Fixed × ℕ
taken_over = reconcile answering_clients (pos 9) holding_account 0

takes_over_orders :
    (taken_over.1.open_orders ≡ some (("2", order_fields 2) ∷ ("1", order_fields 1) ∷ []))
    × (taken_over.2 ≡ 3)
unfolding reconcile with_spot_answer with_perp_answer with_answers take_over state_from
    open_orders_map put_orders parse_open_orders normalize_orders order_id_from_order first_string
    string_from_any trim_space trim_left trim_right get insert delete fixed
takes_over_orders = (refl, refl)
