-- ===== src/Account/Requests/Refresh.antt =====
-- A reconciliation takes over the exchange's answers as a whole, or nothing of them.
use hyper_basis.Prelude.{
  ◌≡◌, refl, ap, ◌∙◌, String, true, false, Option, none, some, List, [], ◌∷◌, arith, str_eq, eq_iff,
  if◌then◌else◌, Bool-cases, inl, inr,
}
use hyper_basis.Prelude.Float.{Float64}
use hyper_basis.Prelude.Int.{ℤ}
use hyper_basis.Prelude.Numerals.{Numerals}
use hyper_basis.Prelude.Result.{Err, Result, ok, err}
use hyper_basis.Prelude.Dict.{lookup, insert, lookup-insert}
use hyper_basis.Account.Parse.{order_id_from_order}
use hyper_basis.Account.Balances.{parse_balances, parse_margin_summary, parse_positions}
use hyper_basis.Account.Orders.{OrderMap, parse_open_orders, put_orders, open_orders_map}
use hyper_basis.Account.Updates.{State, Account}
use hyper_basis.Json.{Value, Fields, obj}
use hyper_basis.Account.Requests.{
  Clients, request, reconcile, take_over, state_from, with_answers, with_perp_answer,
  with_spot_answer,
}

module _ {F : Type 0} ⦃fl : Float64 F⦄ ⦃ns : Numerals F⦄ where
  -- The last of these orders with an id, or the one before them.
  unfoldable pub last_listed : String → Option (Fields F) → List (Fields F) → Option (Fields F)
  last_listed id before [] = before
  last_listed id before (order ∷ orders) =
      last_listed id (if str_eq (order_id_from_order order) id then some order else before) orders

  abbrev pub lookup_in : String → Option (OrderMap F) → Option (Fields F)
  lookup_in id none = none
  lookup_in id (some dict) = lookup id dict

  lookup-put :
      (id : String) (order : Fields F) (dict : OrderMap F)
      → str_eq id "" ≡ false
      → let key = order_id_from_order order in
        lookup id (if str_eq key "" then dict else insert key order dict)
        ≡ (if str_eq key id then some order else lookup id dict)
  lookup-put id order dict h =
      let key = order_id_from_order order in
      elim (Bool-cases (str_eq key "")) [
        | inl e ↦
            let other : str_eq key id ≡ false =
              ground (arith, h, e, eq_iff key "", eq_iff id "", eq_iff key id) in
            rw (e, other) refl
        | inr e ↦ rw e (lookup-insert key id order dict)
      ]

  lookup-put_orders :
      (id : String) (orders : List (Fields F)) (dict : OrderMap F)
      → str_eq id "" ≡ false
      → lookup id (put_orders orders dict) ≡ last_listed id (lookup id dict) orders
  unfolding put_orders last_listed
  lookup-put_orders id [] dict h = refl
  lookup-put_orders id (order ∷ orders) dict h =
      lookup-put_orders id orders _ h
      ∙ ap (λ before. last_listed id before orders) (lookup-put id order dict h)

  lookup-open_orders_map :
      (id : String) (orders : List (Fields F))
      → str_eq id "" ≡ false
      → lookup_in id (open_orders_map orders) ≡ last_listed id none orders
  unfolding open_orders_map last_listed lookup
  lookup-open_orders_map id [] h = refl
  lookup-open_orders_map id (order ∷ orders) h = lookup-put_orders id (order ∷ orders) [] h

  -- The account `b` is `a` with this state: its map has the orders of the state, it has had the three
  -- snapshots, and the rest is as it was.
  pub record TakenOver (now : ℤ) (s : State F) (a b : Account F) : Type 0 where
    pub state : b.state ≡ s
    pub orders :
        (id : String)
        → str_eq id "" ≡ false
        → lookup_in id b.open_orders ≡ last_listed id none s.open_orders
    pub has_orders : b.has_open_orders_snapshot ≡ true
    pub has_perp : b.has_perp_state_snapshot ≡ true
    pub has_spot : b.has_spot_state_snapshot ≡ true
    pub updated : b.last_update ≡ now
    pub same_user : b.user ≡ a.user
    pub same_book : b.book ≡ a.book
    pub same_enabled : b.fills_enabled ≡ a.fills_enabled
    pub same_post_id : b.spot_post_id ≡ a.spot_post_id

  take_over-TakenOver :
      (now : ℤ) (s : State F) (a : Account F) → TakenOver now s a (take_over now s a)
  unfolding take_over
  take_over-TakenOver now s a = record {
    state = refl;
    orders = λ id h. lookup-open_orders_map id s.open_orders h;
    has_orders = refl;
    has_perp = refl;
    has_spot = refl;
    updated = refl;
    same_user = refl;
    same_book = refl;
    same_enabled = refl;
    same_post_id = refl;
  }

module _ {F E : Type 0} ⦃fl : Float64 F⦄ ⦃ns : Numerals F⦄ (clients : Clients F E) (now : ℤ)
    (a : Account F) where
  -- The state is read off the answers to the three requests, asked one after the other from `e`.
  pub record Answered (e : E) (s : State F) : Type 0 where
    pub spot : Fields F
    pub perp : Fields F
    pub listed : Value F
    pub after_spot : E
    pub after_perp : E
    pub after_all : E
    pub asked_spot :
        clients.info (request "spotClearinghouseState" a.user) e ≡ (ok spot, after_spot)
    pub asked_perp :
        clients.info (request "clearinghouseState" a.user) after_spot ≡ (ok perp, after_perp)
    pub asked_orders :
        clients.info_any (request "openOrders" a.user) after_perp ≡ (ok listed, after_all)
    pub balances : s.spot_balances ≡ parse_balances spot
    pub positions : s.perp_position ≡ parse_positions perp
    pub open_orders : s.open_orders ≡ parse_open_orders listed
    pub margin : (s.margin_summary, s.has_margin_summary) ≡ parse_margin_summary (obj perp)

  -- The result of a reconciliation from `e`, and the account after it.
  pub data Whole (e : E) : Result (State F) → Account F → Type 0 where
    taken : {s : State F} {b : Account F} → Answered e s → TakenOver now s a b → Whole e (ok s) b
    kept : {x : Err} → Whole e (err x) a

  with_answers-Whole :
      (spot perp : Fields F) (e e1 e2 : E) (r : Result (Value F) × E)
      → clients.info (request "spotClearinghouseState" a.user) e ≡ (ok spot, e1)
      → clients.info (request "clearinghouseState" a.user) e1 ≡ (ok perp, e2)
      → clients.info_any (request "openOrders" a.user) e2 ≡ r
      → let (r', b, _) = with_answers clients now a spot perp r in Whole e r' b
  unfolding with_answers state_from
  with_answers-Whole spot perp e e1 e2 (err x, e3) p q h = kept
  with_answers-Whole spot perp e e1 e2 (ok orders, e3) p q h =
      let read : Answered e (state_from spot perp orders) = record {
        spot = spot;
        perp = perp;
        listed = orders;
        after_spot = e1;
        after_perp = e2;
        after_all = e3;
        asked_spot = p;
        asked_perp = q;
        asked_orders = h;
        balances = refl;
        positions = refl;
        open_orders = refl;
        margin = refl;
      } in
      taken read (take_over-TakenOver now (state_from spot perp orders) a)

  with_perp_answer-Whole :
      (spot : Fields F) (e e1 : E) (r : Result (Fields F) × E)
      → clients.info (request "spotClearinghouseState" a.user) e ≡ (ok spot, e1)
      → clients.info (request "clearinghouseState" a.user) e1 ≡ r
      → let (r', b, _) = with_perp_answer clients now a spot r in Whole e r' b
  unfolding with_perp_answer
  with_perp_answer-Whole spot e e1 (err x, e2) p q = kept
  with_perp_answer-Whole spot e e1 (ok perp, e2) p q =
      with_answers-Whole spot perp e e1 e2 (clients.info_any (request "openOrders" a.user) e2) p q
        refl

  with_spot_answer-Whole :
      (e : E) (r : Result (Fields F) × E)
      → clients.info (request "spotClearinghouseState" a.user) e ≡ r
      → let (r', b, _) = with_spot_answer clients now a r in Whole e r' b
  unfolding with_spot_answer
  with_spot_answer-Whole e (err x, e1) p = kept
  with_spot_answer-Whole e (ok spot, e1) p =
      with_perp_answer-Whole spot e e1 (clients.info (request "clearinghouseState" a.user) e1) p
        refl

  -- A reconciliation that returns a state has read it off the answers to its three requests, and makes it
  -- the account's: the map has under each id that is not empty the last order of the answer with that
  -- id, the three marks of a snapshot are set, and the user, the fills and the number of the last request
  -- are as they were. One that returns an error changes nothing of the account.
  pub reconcile-Whole : (e : E) → let (r, b, _) = reconcile clients now a e in Whole e r b
  unfolding reconcile
  reconcile-Whole e = elim (Bool-cases clients.has_rest) [
    | inl h ↦
        simp h
          (with_spot_answer-Whole e (clients.info (request "spotClearinghouseState" a.user) e) refl)
    | inr h ↦ simp h kept
  ]
