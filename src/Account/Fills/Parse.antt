-- ===== src/Account/Fills/Parse.antt =====
-- internal/account/fills.go: the fills of a message.
use hyper_basis.Prelude.{List, [], ◌∷◌}
use hyper_basis.Prelude.Float.{Float64}
use hyper_basis.Prelude.Numerals.{Numerals}
use hyper_basis.Json.{Value, Items, Fields, at, arr, obj, nil, cons}
use hyper_basis.Account.Parse.{string_from_any, float_or_zero, int64_from_any}
use hyper_basis.Account.Fills.{Fill}

module _ {F : Type 0} ⦃fl : Float64 F⦄ ⦃ns : Numerals F⦄ where
  abbrev pub parse_fill : Fields F → Fill F
  unfolding string_from_any
  parse_fill entry = record {
    order_id = string_from_any (at "oid" entry);
    asset = string_from_any (at "coin" entry);
    side = string_from_any (at "side" entry);
    size = float_or_zero (at "sz" entry);
    price = float_or_zero (at "px" entry);
    time_ms = int64_from_any (at "time" entry);
    hash = string_from_any (at "hash" entry);
  }

  abbrev pub add_entry : Value F → List (Fill F) → List (Fill F)
  add_entry (obj entry) fills = parse_fill entry ∷ fills
  add_entry _ fills = fills

  unfoldable pub parse_fill_list : Items F → List (Fill F)
  parse_fill_list nil = []
  parse_fill_list (cons item raw) = add_entry item (parse_fill_list raw)

  abbrev pub fills_of_data : Value F → List (Fill F)
  unfolding parse_fill_list
  fills_of_data (arr list) = parse_fill_list list
  fills_of_data _ = []

  abbrev pub fills_of_payload : Value F → Value F → List (Fill F)
  unfolding parse_fill_list
  fills_of_payload (arr list) outer = parse_fill_list list
  fills_of_payload _ outer = fills_of_data outer

  unfoldable pub parse_fills : Value F → List (Fill F)
  parse_fills (arr list) = parse_fill_list list
  parse_fills (obj payload) = fills_of_payload (at "fills" payload) (at "data" payload)
  parse_fills _ = []
