-- ===== src/Account/Orders/Reports.antt =====
-- What an update makes of the map of the open orders, stated on the last report of each order.
use hyper_basis.Prelude.{
  ◌≡◌, refl, ap, ◌∙◌, String, false, Option, none, some, List, [], ◌∷◌, arith, str_eq, eq_iff,
  if◌then◌else◌, Bool-cases, inl, inr,
}
use hyper_basis.Prelude.Float.{Float64}
use hyper_basis.Prelude.Numerals.{Numerals}
use hyper_basis.Prelude.Dict.{lookup, insert, delete, lookup-insert, lookup-delete}
use hyper_basis.Json.{Fields}
use hyper_basis.Account.Parse.{order_id_from_order, order_is_terminal}
use hyper_basis.Account.Orders.{OrderMap, merge_order, merge_orders}

module _ {F : Type 0} ⦃fl : Float64 F⦄ ⦃ns : Numerals F⦄ where
  -- What is open of an order after a report of it.
  abbrev pub outcome : Fields F → Option (Fields F)
  outcome order = if order_is_terminal order then none else some order

  -- What is open under an id, after these reports.
  unfoldable pub last_report : String → Option (Fields F) → List (Fields F) → Option (Fields F)
  last_report id before [] = before
  last_report id before (order ∷ orders) =
      last_report id (if str_eq (order_id_from_order order) id then outcome order else before)
        orders

  abbrev settle_order : Fields F → OrderMap F → OrderMap F
  settle_order order dict =
      let id = order_id_from_order order in
      if str_eq id ""
      then dict
      else if order_is_terminal order
      then delete id dict
      else insert id order dict

  unfoldable pub settle_all : List (Fields F) → OrderMap F → OrderMap F
  settle_all [] dict = dict
  settle_all (order ∷ orders) dict = settle_all orders (settle_order order dict)

  merge_order_settles :
      (order : Fields F) (dict : OrderMap F)
      → merge_order order (some dict) ≡ some (some (settle_order order dict))
  unfolding merge_order
  merge_order_settles order dict = elim (Bool-cases (str_eq (order_id_from_order order) "")) [
    | inl e ↦ rw e refl
    | inr e ↦ elim (Bool-cases (order_is_terminal order)) [
      | inl d ↦ rw (e, d) refl
      | inr d ↦ rw (e, d) refl
    ]
  ]

  pub merge_orders_settles :
      (orders : List (Fields F)) (dict : OrderMap F)
      → merge_orders orders (some dict) ≡ some (some (settle_all orders dict))
  unfolding merge_orders settle_all
  merge_orders_settles [] dict = refl
  merge_orders_settles (order ∷ orders) dict =
      rw (merge_order_settles order dict) (merge_orders_settles orders (settle_order order dict))

  lookup-settle_order :
      (id : String) (order : Fields F) (dict : OrderMap F)
      → str_eq id "" ≡ false
      → lookup id (settle_order order dict)
        ≡ (if str_eq (order_id_from_order order) id then outcome order else lookup id dict)
  lookup-settle_order id order dict h = elim (Bool-cases (str_eq (order_id_from_order order) "")) [
    | inl e ↦
        let other : str_eq (order_id_from_order order) id ≡ false = ground (
          arith,
          h,
          e,
          eq_iff (order_id_from_order order) "",
          eq_iff id "",
          eq_iff (order_id_from_order order) id,
        ) in
        rw (e, other) refl
    | inr e ↦ elim (Bool-cases (order_is_terminal order)) [
      | inl d ↦ rw (e, d) (lookup-delete (order_id_from_order order) id dict)
      | inr d ↦ rw (e, d) (lookup-insert (order_id_from_order order) id order dict)
    ]
  ]

  pub lookup-settle_all :
      (id : String) (orders : List (Fields F)) (dict : OrderMap F)
      → str_eq id "" ≡ false
      → lookup id (settle_all orders dict) ≡ last_report id (lookup id dict) orders
  unfolding settle_all last_report
  lookup-settle_all id [] dict h = refl
  lookup-settle_all id (order ∷ orders) dict h =
      lookup-settle_all id orders (settle_order order dict) h
      ∙ ap (λ before. last_report id before orders) (lookup-settle_order id order dict h)
