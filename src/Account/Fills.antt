-- ===== src/Account/Fills.antt =====
-- internal/account/fills.go, and of internal/account/account.go the sizes that are filled: each fill is
-- counted once, under its hash or a key made of its fields, and the oldest keys and orders are dropped
-- above 2000. `FillBook` is what `Account` holds for it. The element of the linked list that belongs to
-- an order is known by the order, so `fill_order_elem` is the set of the orders that have one.
pub mod Parse
pub mod Bounds
pub mod Once
pub mod Newest
use Prim.Native.String.{◌++◌ as append}
use hyper_basis.Prelude.{
  ℕ, zero, suc, ◌-◌, String, Bool, true, false, not, ◌||◌, Option, none, some, List, [], ◌∷◌, ◌++◌,
  str_eq, if◌then◌else◌, ltb, length,
}
use hyper_basis.Prelude.Int.{ℤ}
use hyper_basis.Prelude.Float.{Float64, nought}
use hyper_basis.Prelude.Numerals.{Numerals}
use hyper_basis.Prelude.Dict.{has, remove, lookup, insert, delete}

pub record Fill (F : Type 0) : Type 0 where
  pub order_id : String
  pub asset : String
  pub side : String
  pub size : F
  pub price : F
  pub time_ms : ℤ
  pub hash : String

pub record FillBook (F : Type 0) : Type 0 where
  pub fills_by_order_id : List (String × F)
  pub fill_order_list : List String
  pub fill_order_elem : List String
  pub seen_fill_keys : List String
  pub seen_fill_order : List String

abbrev pub max_seen_fill_keys : ℕ
max_seen_fill_keys = 2000

abbrev pub max_fill_order_ids : ℕ
max_fill_order_ids = 2000

abbrev pub no_fills : {F : Type 0} → FillBook F
no_fills = record {
  fills_by_order_id = [];
  fill_order_list = [];
  fill_order_elem = [];
  seen_fill_keys = [];
  seen_fill_order = [];
}

-- `m[key]`: a missing key reads as 0.
abbrev pub size_or_zero : {F : Type 0} ⦃fl : Float64 F⦄ → Option F → F
size_or_zero none = nought
size_or_zero (some x) = x

-- The loop over the keys that `seenFillOrder` holds too many, n of them: what is left of the list and
-- of the set.
unfoldable pub evict_keys : ℕ → List String → List String → List String × List String
evict_keys zero order seen = (order, seen)
evict_keys (suc n) [] seen = ([], seen)
evict_keys (suc n) (key ∷ order) seen = evict_keys n order (remove key seen)

module _ {F : Type 0} where
  -- The loop that removes the front of the list while too many orders are held.
  unfoldable pub evict_orders :
      List String → List String → List (String × F) → List String × List String × List (String × F)
  evict_orders [] elems sizes = ([], elems, sizes)
  evict_orders (id ∷ order) elems sizes =
      let rest = evict_orders order (remove id elems) (delete id sizes) in
      if ltb max_fill_order_ids (length sizes) then rest else (id ∷ order, elems, sizes)

  unfoldable pub evict : FillBook F → FillBook F
  evict book =
      let (seen_order, seen) =
        evict_keys (length book.seen_fill_order - max_seen_fill_keys) book.seen_fill_order
          book.seen_fill_keys in
      let (order, elems, sizes) =
        evict_orders book.fill_order_list book.fill_order_elem book.fills_by_order_id in
      record {
        fills_by_order_id = sizes;
        fill_order_list = order;
        fill_order_elem = elems;
        seen_fill_keys = seen;
        seen_fill_order = seen_order;
      }

  -- `MoveToBack` of the order's element, or `PushBack` of a new one.
  abbrev touch : String → FillBook F → FillBook F
  touch id book =
      if has id book.fill_order_elem
      then record book { fill_order_list = remove id book.fill_order_list ++ (id ∷ []) }
      else record book {
        fill_order_list = book.fill_order_list ++ (id ∷ []);
        fill_order_elem = id ∷ book.fill_order_elem;
      }

module _ {F : Type 0} ⦃fl : Float64 F⦄ where
  abbrev pub count_fill : String → Fill F → FillBook F → FillBook F
  count_fill key fill book =
      let touched = touch fill.order_id book in
      record touched {
        seen_fill_keys = key ∷ book.seen_fill_keys;
        seen_fill_order = book.seen_fill_order ++ (key ∷ []);
        fills_by_order_id =
            insert fill.order_id
              (fl.add (size_or_zero (lookup fill.order_id book.fills_by_order_id))
                (fl.abs fill.size))
              book.fills_by_order_id;
      }

module _ {F : Type 0} ⦃fl : Float64 F⦄ ⦃ns : Numerals F⦄ where
  abbrev pub fill_key : Fill F → String
  fill_key fill =
      if str_eq fill.hash ""
      then append fill.order_id (
          append ":" (
            append (ns.format_int fill.time_ms) (
              append ":"
                (append (ns.format_twelve fill.size) (append ":" (ns.format_twelve fill.price))))))
      else fill.hash

  -- A fill that the loop passes over, given the keys that were seen.
  unfoldable pub is_old : Fill F → List String → Bool
  is_old fill seen = str_eq fill.order_id "" || fl.eq fill.size nought || has (fill_key fill) seen

  unfoldable pub record_fill : Fill F → FillBook F → FillBook F
  record_fill fill book =
      if is_old fill book.seen_fill_keys then book else count_fill (fill_key fill) fill book

  unfoldable pub record_fills : List (Fill F) → FillBook F → FillBook F
  record_fills [] book = book
  record_fills (fill ∷ fills) book = record_fills fills (record_fill fill book)

  -- `applyUserFillsUpdate`, on the fills of the message.
  unfoldable pub add_fills : List (Fill F) → FillBook F → FillBook F
  add_fills [] book = book
  add_fills fills book = evict (record_fills fills book)

  unfoldable pub fill_size : String → FillBook F → F
  fill_size order_id book =
      if str_eq order_id "" then nought else size_or_zero (lookup order_id book.fills_by_order_id)
