-- ===== src/Account/Parse.antt =====
-- internal/account/account.go: values of a message as strings, numbers and truth values, whatever
-- type they came with, and the fields of an order.
use hyper_basis.Prelude.{
  String, Bool, true, false, not, ◌||◌, Option, none, some, List, [], ◌∷◌, str_eq, if◌then◌else◌,
}
use hyper_basis.Prelude.Int.{ℤ, pos}
use hyper_basis.Prelude.Float.{Float64, nought}
use hyper_basis.Prelude.Text.{trim_space, lower_eq}
use hyper_basis.Prelude.Numerals.{Numerals, parse_bool}
use hyper_basis.Json.{Value, Fields, get, at, bool, num, text, obj}

abbrev or_zero : Option ℤ → ℤ
or_zero none = pos 0
or_zero (some n) = n

abbrev pub is_snapshot : Option Bool → Bool
is_snapshot (some b) = b
is_snapshot none = false

-- A status of an order that still stands.
abbrev pub is_open_status : String → Bool
is_open_status s = lower_eq s "open" || lower_eq s "live" || lower_eq s "pending"

module _ {F : Type 0} ⦃fl : Float64 F⦄ ⦃ns : Numerals F⦄ where
  unfoldable pub string_from_any : Value F → String
  string_from_any (text s) = trim_space s
  string_from_any (num x) = ns.format_whole x
  string_from_any _ = ""

  unfoldable pub float_from_any : Value F → Option F
  float_from_any (num x) = some x
  float_from_any (text s) = ns.parse_float (trim_space s)
  float_from_any _ = none

  unfoldable pub float_or_zero : Value F → F
  float_or_zero v = elim (float_from_any v) [ none ↦ nought | some x ↦ x ]

  unfoldable pub bool_from_any : Value F → Option Bool
  bool_from_any (bool b) = some b
  bool_from_any (text s) = parse_bool (trim_space s)
  bool_from_any (num x) = some (not (fl.eq x nought))
  bool_from_any _ = none

  unfoldable pub int_from_any : Value F → ℤ
  int_from_any v = elim (float_from_any v) [ none ↦ pos 0 | some x ↦ ns.to_int x ]

  abbrev pub int64_from_any : Value F → ℤ
  int64_from_any (num x) = ns.to_int x
  int64_from_any (text s) = or_zero (ns.parse_int (trim_space s))
  int64_from_any _ = pos 0

  -- The flag of a message that has one.
  unfoldable pub snapshot_flag : Value F → Option Bool
  snapshot_flag (obj payload) = elim (get "isSnapshot" payload) [
    | none ↦ none
    | some raw ↦ bool_from_any raw
  ]
  snapshot_flag _ = none

  -- The first of these fields that reads as a string that is not empty.
  unfoldable pub first_string : List String → Fields F → String
  first_string [] m = ""
  first_string (key ∷ ks) m =
      let s = string_from_any (at key m) in
      let rest = first_string ks m in if str_eq s "" then rest else s

  unfoldable pub order_id_from_order : Fields F → String
  order_id_from_order = first_string ("oid" ∷ "orderId" ∷ "orderID" ∷ "id" ∷ [])

  abbrev pub is_cancelled : Fields F → Bool
  is_cancelled order = is_snapshot (bool_from_any (at "isCancelled" order))

  abbrev none_left : Option F → Bool
  none_left none = false
  none_left (some rem) = fl.eq rem nought

  unfoldable pub order_is_terminal : Fields F → Bool
  order_is_terminal order =
      let status = first_string ("status" ∷ "state" ∷ "orderStatus" ∷ []) order in
      if is_cancelled order
      then true
      else if not (str_eq status "")
      then not (is_open_status status)
      else none_left (float_from_any (at "remainingSz" order))
        || none_left (float_from_any (at "remainingSize" order))
