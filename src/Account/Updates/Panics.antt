-- ===== src/Account/Updates/Panics.antt =====
-- An update of the open orders: what the map holds after it, and when the assignment to a nil map
-- panics.
use mathlib.Core.Bool.{false≢true}
use hyper_basis.Prelude.{
  ◌≡◌, ◌↔◌, refl, sym, ◌∙◌, String, Bool, true, false, not, ◌&&◌, ◌||◌, Option, none, some, List,
  [], ◌∷◌, arith, str_eq, if◌then◌else◌, Bool-cases, inl, inr,
}
use hyper_basis.Prelude.Float.{Float64}
use hyper_basis.Prelude.Int.{ℤ}
use hyper_basis.Prelude.Numerals.{Numerals}
use hyper_basis.Prelude.Dict.{lookup}
use hyper_basis.Json.{Value, Fields}
use hyper_basis.Account.Parse.{order_id_from_order, order_is_terminal, snapshot_flag, is_snapshot}
use hyper_basis.Account.Orders.{
  OrderMap, parse_open_orders, open_orders_map, open_orders_slice, merge_order, merge_orders,
  or_map,
}
use hyper_basis.Account.Orders.Reports.{
  last_report, settle_all, merge_orders_settles, lookup-settle_all,
}
use hyper_basis.Account.Updates.{
  Account, apply_open_orders_update, is_flagged, is_nil, merged, with_orders, slice_of,
}

module _ {F : Type 0} ⦃fl : Float64 F⦄ ⦃ns : Numerals F⦄ where
  -- An order that an update puts into the map.
  abbrev pub is_stored : Fields F → Bool
  is_stored order = not (str_eq (order_id_from_order order) "" || order_is_terminal order)

  unfoldable pub any_stored : List (Fields F) → Bool
  any_stored [] = false
  any_stored (order ∷ orders) = is_stored order || any_stored orders

  abbrev pub is_nil_map : Option (OrderMap F) → Bool
  is_nil_map none = true
  is_nil_map (some dict) = false

  merge_order_nil :
      (order : Fields F) → merge_order order none ≡ (if is_stored order then none else some none)
  unfolding merge_order
  merge_order_nil order = ground arith

  merge_orders_nil :
      (orders : List (Fields F))
      → merge_orders orders none ≡ (if any_stored orders then none else some none)
  unfolding merge_orders any_stored
  merge_orders_nil [] = refl
  merge_orders_nil (order ∷ orders) = elim (Bool-cases (is_stored order)) [
    | inl e ↦ rw (merge_order_nil order, e) refl
    | inr e ↦ rw (merge_order_nil order, e) (merge_orders_nil orders)
  ]

  merge_orders_panics :
      (orders : List (Fields F)) (m : Option (OrderMap F))
      → (merge_orders orders m ≡ none) ↔ ((is_nil_map m ≡ true) × (any_stored orders ≡ true))
  merge_orders_panics orders none = elim (Bool-cases (any_stored orders)) [
    | inl e ↦ rw (merge_orders_nil orders, e) (λ p. (refl, refl), λ p. refl)
    | inr e ↦ rw (merge_orders_nil orders, e) (λ p. absurd (cc p), λ p. absurd (false≢true p.1))
  ]
  merge_orders_panics orders (some dict) =
      rw merge_orders_settles (λ p. absurd (cc p), λ p. absurd (false≢true p.0))

  merged_panics :
      (now : ℤ) (a : Account F) (r : Option (Option (OrderMap F)))
      → (merged now a r ≡ none) ↔ (r ≡ none)
  unfolding merged
  merged_panics now a none = (λ p. refl, λ p. refl)
  merged_panics now a (some dict) = (λ p. absurd (cc p), λ p. absurd (cc p))

  empty_stores_none :
      (orders : List (Fields F)) (flagged : Bool)
      → (is_nil orders && not flagged) ≡ true
      → any_stored orders ≡ false
  unfolding any_stored
  empty_stores_none [] flagged h = refl
  empty_stores_none (order ∷ orders) flagged h = absurd (false≢true h)

  no_reports :
      (orders : List (Fields F)) (flagged : Bool) (before : Option (Fields F)) (id : String)
      → (is_nil orders && not flagged) ≡ true
      → last_report id before orders ≡ before
  unfolding last_report
  no_reports [] flagged before id h = refl
  no_reports (order ∷ orders) flagged before id h = absurd (false≢true h)

  -- The map that an update goes on from.
  abbrev pub map_before : Account F → Option (OrderMap F)
  map_before a = or_map a.open_orders (open_orders_map a.state.open_orders)

  -- An update of the open orders panics exactly when it is no snapshot, the account has had one before,
  -- the account's map is nil and its list is empty, as they are after a snapshot or a reconciliation
  -- without orders, and the update reports an order that is open and has an id.
  pub apply_open_orders_update_panics :
      (now : ℤ) (message : Value F) (a : Account F)
      → (apply_open_orders_update now message a ≡ none) ↔ (
          (is_snapshot (snapshot_flag message) ≡ false)
          × (a.has_open_orders_snapshot ≡ true)
          × (is_nil_map (map_before a) ≡ true)
          × (any_stored (parse_open_orders message) ≡ true))
  unfolding apply_open_orders_update
  apply_open_orders_update_panics now message a =
      let orders = parse_open_orders message in
      let flag = snapshot_flag message in
      elim (Bool-cases (is_nil orders && not (is_flagged flag))) [
        | inl e ↦ rw e (
          λ p. absurd (cc p),
          λ (_, _, _, q).
              absurd (false≢true (sym (empty_stores_none orders (is_flagged flag) e) ∙ q)),
        )
        | inr e ↦ elim (Bool-cases (is_snapshot flag || not a.has_open_orders_snapshot)) [
          | inl d ↦ rw (e, d) (λ p. absurd (cc p), λ (q, r, _, _). ground (arith, d, q, r))
          | inr d ↦
              let (there, back) = merge_orders_panics orders (map_before a) in
              let (out, into) = merged_panics now a (merge_orders orders (map_before a)) in
              rw (e, d)
                (
                  λ p. let (q, t) = there (out p) in (ground (arith, d), ground (arith, d), q, t),
                  λ (_, _, q, t). into (back (q, t)),
                )
        ]
      ]

  -- An update that is no snapshot, of an account that has had one and whose list is that of its map,
  -- which is not nil, ends well; after it, the map has under each id that is not empty what the last
  -- report of that id in the update says (nothing if that report is of an order that is done), or what
  -- it had before if the update does not name the id; and the list is again that of the map.
  pub apply_open_orders_update_reports :
      (now : ℤ) (message : Value F) (a : Account F) (dict : OrderMap F)
      → is_snapshot (snapshot_flag message) ≡ false
      → a.has_open_orders_snapshot ≡ true
      → a.open_orders ≡ some dict
      → a.state.open_orders ≡ open_orders_slice dict
      → (b : Account F) × (after : OrderMap F) × (apply_open_orders_update now message a ≡ some b)
        × (b.open_orders ≡ some after)
        × (b.state.open_orders ≡ open_orders_slice after)
        × ((id : String)
            → str_eq id "" ≡ false
            → lookup id after ≡ last_report id (lookup id dict) (parse_open_orders message))
  unfolding apply_open_orders_update merged with_orders slice_of
  apply_open_orders_update_reports now message a dict h k m l =
      let orders = parse_open_orders message in
      let flag = snapshot_flag message in
      elim (Bool-cases (is_nil orders && not (is_flagged flag))) [
        | inl e ↦ (
          a,
          dict,
          rw e refl,
          m,
          l,
          λ id named. sym (no_reports orders (is_flagged flag) (lookup id dict) id e),
        )
        | inr e ↦
            let after = settle_all orders dict in
            (
              with_orders now (some after) a,
              after,
              rw (e, h, k, m, merge_orders_settles) refl,
              refl,
              refl,
              λ id named. lookup-settle_all id orders dict named,
            )
      ]
