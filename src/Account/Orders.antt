-- ===== src/Account/Orders.antt =====
-- internal/account/account.go: the open orders of a message, and the map of them. The map of `Account`
-- is `none` while it is Go's nil map; `none` as the result of a step is the panic of an assignment to
-- the nil map.
pub mod Reports
use hyper_basis.Prelude.{
  String, Bool, true, false, ◌&&◌, not, Option, none, some, List, [], ◌∷◌, str_eq, if◌then◌else◌,
}
use hyper_basis.Prelude.Float.{Float64}
use hyper_basis.Prelude.Int.{eqb_ℤ, pos}
use hyper_basis.Prelude.Numerals.{Numerals}
use hyper_basis.Prelude.Dict.{insert, delete}
use hyper_basis.Json.{Value, Items, Fields, at, arr, obj, nil, cons}
use hyper_basis.Account.Parse.{first_string, order_id_from_order, order_is_terminal, int_from_any}
use hyper_basis.App.{OpenOrder}

abbrev pub OrderMap : Type 0 → Type 0
OrderMap F = List (String × Fields F)

abbrev pub and_then : {A B : Type 0} → Option A → (A → Option B) → Option B
and_then none f = none
and_then (some x) f = f x

module _ {F : Type 0} where
  abbrev pub add_order : Value F → List (Fields F) → List (Fields F)
  add_order (obj m) orders = m ∷ orders
  add_order _ orders = orders

  unfoldable pub normalize_orders : Items F → List (Fields F)
  normalize_orders nil = []
  normalize_orders (cons item raw) = add_order item (normalize_orders raw)

  -- The list under the first of these keys that has one.
  unfoldable pub first_list : List String → Fields F → Items F
  first_list [] payload = nil
  first_list (key ∷ ks) payload =
      let rest = first_list ks payload in elim (at key payload) [ arr list ↦ list | _ ↦ rest ]

  unfoldable pub extract_orders : Fields F → Items F
  extract_orders = first_list ("openOrders" ∷ "orders" ∷ "data" ∷ [])

  unfoldable pub parse_open_orders : Value F → List (Fields F)
  parse_open_orders (arr list) = normalize_orders list
  parse_open_orders (obj payload) = normalize_orders (extract_orders payload)
  parse_open_orders _ = []

  unfoldable pub open_orders_slice : OrderMap F → List (Fields F)
  open_orders_slice [] = []
  open_orders_slice (entry ∷ dict) = entry.1 ∷ open_orders_slice dict

module _ {F : Type 0} ⦃fl : Float64 F⦄ ⦃ns : Numerals F⦄ where
  unfoldable pub put_orders : List (Fields F) → OrderMap F → OrderMap F
  put_orders [] dict = dict
  put_orders (order ∷ orders) dict =
      let id = order_id_from_order order in
      put_orders orders (if str_eq id "" then dict else insert id order dict)

  unfoldable pub open_orders_map : List (Fields F) → Option (OrderMap F)
  open_orders_map [] = none
  open_orders_map orders = some (put_orders orders [])

  abbrev pub assign : String → Fields F → Option (OrderMap F) → Option (Option (OrderMap F))
  assign id order none = none
  assign id order (some dict) = some (some (insert id order dict))

  abbrev pub drop_key : String → Option (OrderMap F) → Option (OrderMap F)
  drop_key id none = none
  drop_key id (some dict) = some (delete id dict)

  -- One order of an update.
  unfoldable pub merge_order : Fields F → Option (OrderMap F) → Option (Option (OrderMap F))
  merge_order order dict =
      let id = order_id_from_order order in
      if str_eq id ""
      then some dict
      else if order_is_terminal order
      then some (drop_key id dict)
      else assign id order dict

  unfoldable pub merge_orders : List (Fields F) → Option (OrderMap F) → Option (Option (OrderMap F))
  merge_orders [] dict = some dict
  merge_orders (order ∷ orders) dict = and_then (merge_order order dict) (merge_orders orders)

  abbrev pub or_map : Option (OrderMap F) → Option (OrderMap F) → Option (OrderMap F)
  or_map (some dict) other = some dict
  or_map none other = other

  unfoldable pub open_order_ids : List (Fields F) → List String
  open_order_ids [] = []
  open_order_ids (order ∷ orders) =
      let id = order_id_from_order order in
      let ids = open_order_ids orders in if str_eq id "" then ids else id ∷ ids

  abbrev pub order_ref : Fields F → OpenOrder
  unfolding order_id_from_order first_string int_from_any
  order_ref order =
      let asset_id = int_from_any (at "asset" order) in
      record {
        order_id = order_id_from_order order;
        cloid = first_string ("cloid" ∷ "clientOrderId" ∷ []) order;
        asset_symbol = first_string ("coin" ∷ "symbol" ∷ "asset" ∷ []) order;
        asset_id = if eqb_ℤ asset_id (pos 0) then int_from_any (at "a" order) else asset_id;
      }

  unfoldable pub open_order_refs : List (Fields F) → List OpenOrder
  unfolding order_ref
  open_order_refs [] = []
  open_order_refs (order ∷ orders) =
      let ref = order_ref order in
      let refs = open_order_refs orders in
      if str_eq ref.order_id "" && str_eq ref.cloid "" then refs else ref ∷ refs
