-- ===== src/Account/Funding.antt =====
-- internal/account/funding.go: the payments of funding that the exchange reports, in the shapes that it
-- reports them in. The fields of the payment that nothing reads, `RawMetadata`, are left out.
use hyper_basis.Prelude.{
  ◌^◌, String, ◌||◌, not, Option, none, some, List, [], ◌∷◌, str_eq, if◌then◌else◌,
}
use hyper_basis.Prelude.Int.{ℤ, pos, ltb_ℤ, ◌*ℤ◌, leb_ℤ}
use hyper_basis.Prelude.Float.{Float64, nought}
use hyper_basis.Prelude.Text.{lower_eq}
use hyper_basis.Prelude.Numerals.{Numerals}
use hyper_basis.Prelude.Result.{Result, ok, err, rest_client_required, user_required}
use hyper_basis.Json.{Value, Items, Fields, at, arr, obj, nil, cons, end, field, items_list}
use hyper_basis.Account.Parse.{first_string, float_from_any, string_from_any}
use hyper_basis.Account.Balances.{first_float}
use hyper_basis.Account.Updates.{Account}
use hyper_basis.Account.Requests.{Clients, Request}

abbrev pub times : List String
times = "time" ∷ "timestamp" ∷ "fundingTime" ∷ "ts" ∷ []

abbrev or_time : Option ℤ → Option ℤ → Option ℤ
or_time (some t) other = some t
or_time none other = other

-- A field that is not set is `none`: the flags of the Go struct say which are.
pub record FundingPayment (F : Type 0) : Type 0 where
  pub asset : String
  pub amount : Option F
  pub rate : Option F
  pub time : Option ℤ

module _ {F : Type 0} ⦃fl : Float64 F⦄ ⦃ns : Numerals F⦄ where
  -- A time in seconds, milliseconds or nanoseconds, told apart by its size.
  abbrev pub time_of : F → Option ℤ
  unfolding ◌*ℤ◌
  time_of x =
      let ts = ns.to_int x in
      if fl.le x nought
      then none
      else if ltb_ℤ (pos (10 ^ 15)) ts
      then some ts
      else if ltb_ℤ (pos (10 ^ 12)) ts
      then some (ts *ℤ pos 1_000_000)
      else some (ts *ℤ pos 1_000_000_000)

  unfoldable pub time_from_any : Value F → Option ℤ
  unfolding time_of
  time_from_any v = elim (float_from_any v) [ none ↦ none | some x ↦ time_of x ]

  unfoldable pub time_from_map : List String → Fields F → Option ℤ
  time_from_map [] m = none
  time_from_map (key ∷ ks) m =
      let rest = time_from_map ks m in
      elim (time_from_any (at key m)) [ some t ↦ some t | none ↦ rest ]

  -- A payment that says nothing but its asset is no payment.
  abbrev pub worth : FundingPayment F → Option (FundingPayment F)
  worth p = elim p.amount [
    | some _ ↦ some p
    | none ↦ elim p.rate [ some _ ↦ some p | none ↦ elim p.time [ some _ ↦ some p | none ↦ none ] ]
  ]

  -- A payment of the fields of an object, of which the amount is looked for under these keys.
  abbrev pub of_fields : List String → Fields F → Option (FundingPayment F)
  unfolding first_string first_float time_from_map
  of_fields amounts m =
      let asset = first_string ("coin" ∷ "asset" ∷ "symbol" ∷ []) m in
      if str_eq asset ""
      then none
      else worth (record {
        asset = asset;
        amount = first_float amounts m;
        rate = first_float ("fundingRate" ∷ "rate" ∷ []) m;
        time = time_from_map times m;
      })

  unfoldable pub parse_funding_delta : Fields F → Option (FundingPayment F)
  unfolding of_fields
  parse_funding_delta delta =
      let kind = first_string ("type" ∷ []) delta in
      if str_eq kind "" || lower_eq kind "funding"
      then of_fields ("usdc" ∷ "funding" ∷ "fundingPayment" ∷ "amount" ∷ []) delta
      else none

  -- The first of these values that reads as a time.
  unfoldable pub first_time : List (Value F) → Option ℤ
  first_time [] = none
  first_time (v ∷ vs) =
      let rest = first_time vs in elim (time_from_any v) [ some t ↦ some t | none ↦ rest ]

  abbrev rate_at : List (Value F) → Option F
  unfolding float_from_any
  rate_at (_ ∷ v ∷ vs) = float_from_any v
  rate_at _ = none

  -- The asset, the amount, the time and the rate of a list, in the places 0 to 3.
  unfoldable pub parse_funding_slice : List (Value F) → Option (FundingPayment F)
  unfolding rate_at
  parse_funding_slice (first ∷ second ∷ others) =
      let head = string_from_any first in
      let asset = if str_eq head "" then string_from_any second else head in
      if str_eq asset ""
      then none
      else worth (record {
        asset = asset;
        amount = float_from_any second;
        rate = rate_at others;
        time = first_time others;
      })
  parse_funding_slice _ = none

  abbrev with_time : Fields F → Option (FundingPayment F) → Option (FundingPayment F)
  unfolding time_from_map
  with_time m none = none
  with_time m (some p) = some (record p { time = or_time (time_from_map times m) p.time })

  unfoldable pub parse_funding_entry : Value F → Option (FundingPayment F)
  unfolding of_fields with_time
  parse_funding_entry (obj m) = elim (at "delta" m) [
    | obj delta ↦ with_time m (parse_funding_delta delta)
    | _ ↦ of_fields ("funding" ∷ "fundingPayment" ∷ "amount" ∷ "usdc" ∷ []) m
  ]
  parse_funding_entry (arr items) = parse_funding_slice (items_list items)
  parse_funding_entry _ = none

  abbrev pub add_payment :
      Option (FundingPayment F) → List (FundingPayment F) → List (FundingPayment F)
  add_payment none payments = payments
  add_payment (some p) payments = p ∷ payments

  unfoldable pub payments_of : Items F → List (FundingPayment F)
  payments_of nil = []
  payments_of (cons item items) = add_payment (parse_funding_entry item) (payments_of items)

  abbrev pub or_payments :
      Option (List (FundingPayment F)) → List (FundingPayment F) → List (FundingPayment F)
  or_payments none other = other
  or_payments (some payments) other = payments

  unfoldable mutual
    pub parse_user_funding : Value F → List (FundingPayment F)
    parse_user_funding (obj m) = or_payments (funding_under "data" m) (
        or_payments (funding_under "fundings" m) (
          or_payments (funding_under "userFunding" m)
            (add_payment (parse_funding_entry (obj m)) [])))
    parse_user_funding (arr items) = payments_of items
    parse_user_funding _ = []

    -- Those under this field, if there is one.
    pub funding_under : String → Fields F → Option (List (FundingPayment F))
    funding_under wanted end = none
    funding_under wanted (field key nested rest) =
        let here = parse_user_funding nested in
        let there = funding_under wanted rest in if str_eq key wanted then some here else there

module _ {F E : Type 0} ⦃fl : Float64 F⦄ ⦃ns : Numerals F⦄ (clients : Clients F E) where
  abbrev funding_answer : Result (Value F) × E → Result (List (FundingPayment F)) × E
  unfolding parse_user_funding
  funding_answer (ok v, e) = (ok (parse_user_funding v), e)
  funding_answer (err x, e) = (err x, e)

  -- `UserFunding`
  unfoldable pub user_funding : ℤ → Account F → E → Result (List (FundingPayment F)) × E
  unfolding funding_answer
  user_funding start a e =
      let req : Request = record {
        kind = "userFunding";
        user = a.user;
        start_time = if leb_ℤ (pos 0) start then some start else none;
        end_time = none;
      } in
      if not clients.has_rest
      then (err rest_client_required, e)
      else if str_eq a.user ""
      then (err user_required, e)
      else funding_answer (clients.info_any req e)
