-- ===== src/Account/Balances/Ledger.antt =====
-- internal/account/account.go: the updates of the ledger that are not funding, and what each of them
-- moves on the spot balances.
use hyper_basis.Prelude.{
  String, Bool, false, ◌&&◌, ◌||◌, not, Option, none, some, List, [], ◌∷◌, str_eq, if◌then◌else◌,
}
use hyper_basis.Prelude.Float.{Float64, nought}
use hyper_basis.Prelude.Numerals.{Numerals}
use hyper_basis.Prelude.Text.{trim_space, lower_eq, lowered, same}
use hyper_basis.Prelude.Dict.{lookup, insert, delete}
use hyper_basis.Json.{Value, Items, Fields, get, at, arr, obj, nil, cons, end, field}
use hyper_basis.Account.Parse.{
  first_string, float_from_any, bool_from_any, string_from_any, snapshot_flag, is_snapshot,
}
use hyper_basis.Account.Balances.{Dict}
use hyper_basis.Account.Fills.{size_or_zero}

module _ {F : Type 0} where
  abbrev pub add_update : Value F → List (Fields F) → List (Fields F)
  add_update (obj entry) updates = entry ∷ updates
  add_update _ updates = updates

  unfoldable pub normalize_ledger_updates : Items F → List (Fields F)
  normalize_ledger_updates nil = []
  normalize_ledger_updates (cons item raw) = add_update item (normalize_ledger_updates raw)

  -- `[]map[string]any{payload}` for an update that stands alone.
  abbrev pub alone : Fields F → List (Fields F)
  unfolding get
  alone payload = elim (get "type" payload) [ some _ ↦ payload ∷ [] | none ↦ [] ]

  abbrev pub or_alone : List (Fields F) → Fields F → List (Fields F)
  unfolding alone
  or_alone [] payload = alone payload
  or_alone updates payload = updates

  unfoldable mutual
    pub parse_ledger_updates : Value F → List (Fields F)
    parse_ledger_updates (arr list) = normalize_ledger_updates list
    parse_ledger_updates (obj payload) = elim (at "updates" payload) [
      | arr list ↦ normalize_ledger_updates list
      | _ ↦ elim (at "ledgerUpdates" payload) [
        | arr list ↦ normalize_ledger_updates list
        | _ ↦ elim (at "data" payload) [
          | arr list ↦ normalize_ledger_updates list
          | _ ↦ or_alone (ledger_updates_under payload) payload
        ]
      ]
    ]
    parse_ledger_updates _ = []

    -- Those of the object under the field "data".
    pub ledger_updates_under : Fields F → List (Fields F)
    ledger_updates_under end = []
    ledger_updates_under (field key nested rest) =
        let here = parse_ledger_updates nested in
        let there = ledger_updates_under rest in if str_eq key "data" then here else there

abbrev pub or_nested : Option Bool → Bool → Bool
or_nested (some flag) other = flag
or_nested none other = other

-- `normalizeAddr(x) != "" && normalizeAddr(x) == me`, for an `me` that is not empty.
abbrev pub is_me : String → String → Bool
is_me user address = not (str_eq address "") && same (lowered address) (lowered user)

module _ {F : Type 0} ⦃fl : Float64 F⦄ ⦃ns : Numerals F⦄ where
  abbrev pub nested_snapshot : Option (Value F) → Bool
  nested_snapshot none = false
  nested_snapshot (some nested) = is_snapshot (snapshot_flag nested)

  unfoldable pub ledger_snapshot : Value F → Bool
  ledger_snapshot (obj payload) =
      or_nested (snapshot_flag (obj payload)) (nested_snapshot (get "data" payload))
  ledger_snapshot _ = false

  unfoldable pub signed_ledger_amount : F → Fields F → String → F
  signed_ledger_amount amount update user =
      let me = trim_space user in
      if fl.eq amount nought
      then nought
      else if fl.lt amount nought
      then amount
      else if str_eq me ""
      then amount
      else if is_me me (string_from_any (at "destination" update))
      then amount
      else if is_me me (string_from_any (at "user" update))
      then fl.neg amount
      else amount

  -- A delta that counts: of an asset, and not nought.
  abbrev delta_of : String → F → Option (String × F)
  delta_of asset delta = if str_eq asset "" || fl.eq delta nought then none else some (asset, delta)

  abbrev spot_transfer : Fields F → String → Option (String × F)
  unfolding first_string signed_ledger_amount float_from_any
  spot_transfer update user = elim (float_from_any (at "amount" update)) [
    | none ↦ none
    | some amount ↦
        delta_of (first_string ("token" ∷ "coin" ∷ []) update)
          (signed_ledger_amount amount update user)
  ]

  -- `spotGenesis`, and a type that is not known.
  abbrev token_amount : Fields F → Option (String × F)
  unfolding string_from_any float_from_any
  token_amount update = elim (float_from_any (at "amount" update)) [
    | none ↦ none
    | some amount ↦ delta_of (string_from_any (at "token" update)) amount
  ]

  abbrev class_transfer : F → Option Bool → Option (String × F)
  class_transfer usdc none = none
  class_transfer usdc (some to_perp) =
      if fl.eq usdc nought then none else some ("USDC", if to_perp then fl.neg usdc else usdc)

  unfoldable pub ledger_delta : Fields F → String → Option (String × F)
  unfolding spot_transfer token_amount
  ledger_delta update user =
      let kind = string_from_any (at "type" update) in
      if lower_eq kind "spottransfer"
      then spot_transfer update user
      else if lower_eq kind "spotgenesis"
      then token_amount update
      else if lower_eq kind "accountclasstransfer"
      then elim (float_from_any (at "usdc" update)) [
        | none ↦ none
        | some usdc ↦ class_transfer usdc (bool_from_any (at "toPerp" update))
      ]
      else token_amount update

  -- A balance that is nought, to nine decimals, is dropped.
  unfoldable pub move_balance : Option (String × F) → Dict F → Dict F
  move_balance none balances = balances
  move_balance (some (asset, delta)) balances =
      let held = size_or_zero (lookup asset balances) in
      let next = fl.add held delta in
      if fl.le (fl.abs next) (fl.lit 1 9) then delete asset balances else insert asset next balances

  unfoldable pub move_balances : List (Fields F) → String → Dict F → Dict F
  move_balances [] user balances = balances
  move_balances (update ∷ updates) user balances =
      move_balances updates user (move_balance (ledger_delta update user) balances)
