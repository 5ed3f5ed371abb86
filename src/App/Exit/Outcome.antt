-- ===== src/App/Exit/Outcome.antt =====
-- How `exitPosition` can end: the orders that it has placed, the state of the machine and the
-- result.
use hyper_basis.Prelude.{
  ◌≡◌, refl, ◌∙◌, ap, inl, inr, String, Bool, true, false, ◌&&◌, List, ◌∷◌, arith, Bool-cases,
}
use hyper_basis.Prelude.Float.{Float64, nought, IsOrdered}
use hyper_basis.Prelude.Result.{Err, Result, ok, err, perp_exit_unfilled, spot_exit_unfilled}
use hyper_basis.Strategy.{State, StateMachine, Event, MarketSnapshot, next_state}
use hyper_basis.Exec.{Order}
use hyper_basis.App.{Services, World, placed, apply_event, set_env}
use hyper_basis.App.Numbers.{flat_epsilon}
use hyper_basis.App.Fills.{place_and_wait, rollback_spot_with}
use hyper_basis.App.Frame.{
  same_state, cancel_if_open-Quiet, persist-placed, Reports, place_and_wait-placed, rollback-placed,
  LegFailed, leg_refused, leg_short,
}
use hyper_basis.App.Entry.Ends.{state_of}
use hyper_basis.App.Exit.{
  ExitPlan, spot_exit_order, perp_exit_order, back_to_hedge, finish_exit, perp_filled_exit,
  after_perp_exit, exit_perp_leg, spot_filled_exit, after_spot_exit, place_exit_legs, cloid_for,
  exit_perp_cloid, exit_spot_cloid, carry_out_exit, report_exit, exiting, planned_exit,
  exit_position,
}
use hyper_basis.App.Exit.Ends.{
  with_spot_leg, with_undoing, LegOver, ExitLegsOutcome, ExitOutcome, no_size, filled_up,
  spot_failed, spot_short, perp_failed, closed, not_started, Unready, no_plan, no_cloid,
  nothing_left, started,
}

module _ {F E : Type 0} ⦃fl : Float64 F⦄ (sv : Services F E) (laws : IsOrdered fl)
    (snap : MarketSnapshot F) where
  open fl use {add, lt, le}

  finish_exit-frame :
      (w : World F E)
      → state_of w ≡ State.exit
      → (placed (finish_exit sv snap w).calls ≡ placed w.calls)
        × (state_of (finish_exit sv snap w) ≡ State.idle)
  unfolding finish_exit next_state
  finish_exit-frame w h = ground arith

  hedge_ok_again :
      (w : World F E)
      → state_of w ≡ State.exit
      → state_of (apply_event Event.hedge_ok w) ≡ State.hedge_ok
  unfolding apply_event next_state
  hedge_ok_again w h = ground arith

  hedge_ok_calls : (w : World F E) → (apply_event Event.hedge_ok w).calls ≡ w.calls
  unfolding apply_event
  hedge_ok_calls w = refl

  back_to_hedge-frame :
      (plan : ExitPlan F) (filled : F) (x : Err) (w : World F E)
      → state_of w ≡ State.exit
      → let w' = (back_to_hedge sv plan filled x w).1 in
        (placed w'.calls ≡ with_undoing plan filled (placed w.calls))
        × (state_of w' ≡ State.hedge_ok)
  unfolding back_to_hedge
  back_to_hedge-frame plan filled x w st = elim (Bool-cases (lt nought filled)) [
    | inl pos ↦
        let limit = plan.spot_rollback_limit in
        let more : le filled nought ≡ false = ground (arith, laws.not_lt_of_le filled nought) in
        let w' = (rollback_spot_with sv plan.spot_id filled limit plan.rollback_is_buy w).1 in
        let (q, a) = rollback-placed sv plan.spot_id filled limit plan.rollback_is_buy w more in
        rw pos (ap placed (hedge_ok_calls w') ∙ q, hedge_ok_again w' (same_state a st))
    | inr none_filled ↦ rw none_filled (ap placed (hedge_ok_calls w), hedge_ok_again w st)
  ]

  module _ (plan : ExitPlan F) (spot_cloid perp_cloid : String) (old : List (Order F)) where
    abbrev Legs : Result (Unit {0}) × World F E → Type 0
    Legs = ExitLegsOutcome sv plan spot_cloid perp_cloid old

    abbrev after_spot_orders : List (Order F)
    after_spot_orders = with_spot_leg plan spot_cloid old

    abbrev SpotOver : F → Type 0
    SpotOver = LegOver sv old (spot_exit_order plan spot_cloid)

    abbrev PerpRefused : Err → Type 0
    PerpRefused =
        LegFailed sv after_spot_orders (perp_exit_order plan perp_cloid)
          (λ size. lt (add size flat_epsilon) plan.perp_size ≡ true) perp_exit_unfilled

    perp_failed-Legs :
        (filled : F) (x : Err) (w : World F E)
        → SpotOver filled
        → lt nought plan.perp_size ≡ true
        → PerpRefused x
        → placed w.calls ≡ perp_exit_order plan perp_cloid ∷ after_spot_orders
        → state_of w ≡ State.exit
        → Legs (back_to_hedge sv plan filled x w)
    unfolding back_to_hedge
    perp_failed-Legs filled x w spot has failed p st =
        let (q, s) = back_to_hedge-frame plan filled x w st in
        perp_failed filled spot has failed (q ∙ ap (with_undoing plan filled) p) s

    perp_filled-Legs :
        (filled perp_filled : F) (w : World F E)
        → SpotOver filled
        → Reports sv after_spot_orders (perp_exit_order plan perp_cloid) perp_filled
        → lt nought plan.perp_size ≡ true
        → placed w.calls ≡ perp_exit_order plan perp_cloid ∷ after_spot_orders
        → state_of w ≡ State.exit
        → Legs (perp_filled_exit sv snap plan filled perp_filled w)
    unfolding perp_filled_exit
    perp_filled-Legs filled perp_filled w spot report has p st =
        elim (Bool-cases (lt (add perp_filled flat_epsilon) plan.perp_size)) [
          | inl short ↦
              rw short (
                perp_failed-Legs filled perp_exit_unfilled w spot has (leg_short report short) p st)
          | inr full ↦
              let (q, s) = finish_exit-frame w st in
              rw full (closed filled perp_filled spot (filled_up report full) (q ∙ p ∙ rw has) s)
        ]

    after_perp-Legs :
        (filled : F) (r : Result (String × F × Bool)) (w from : World F E)
        → SpotOver filled
        → (place_and_wait sv (perp_exit_order plan perp_cloid) from).0 ≡ r
        → placed from.calls ≡ after_spot_orders
        → lt nought plan.perp_size ≡ true
        → placed w.calls ≡ perp_exit_order plan perp_cloid ∷ after_spot_orders
        → state_of w ≡ State.exit
        → Legs (after_perp_exit sv snap plan filled (r, w))
    after_perp-Legs filled (err x) w from spot e before has p st =
        perp_failed-Legs filled x w spot has (leg_refused from before e) p st
    after_perp-Legs filled (ok (id, perp_filled, is_open)) w from spot e before has p st =
        let q = cancel_if_open-Quiet sv is_open plan.perp_id id w in
        perp_filled-Legs filled perp_filled _ spot (from, id, is_open, before, e) has
          (q.same_placed ∙ p) (same_state q.same_app st)

    perp_leg-Legs :
        (filled : F) (w : World F E)
        → SpotOver filled
        → placed w.calls ≡ after_spot_orders
        → state_of w ≡ State.exit
        → Legs (exit_perp_leg sv snap plan perp_cloid filled w)
    unfolding exit_perp_leg
    perp_leg-Legs filled w spot p st = elim (Bool-cases (lt nought plan.perp_size)) [
      | inl has ↦
          let order = perp_exit_order plan perp_cloid in
          let (q, a) = place_and_wait-placed sv order w in
          let r = place_and_wait sv order w in
          rw has (
            after_perp-Legs filled r.0 r.1 w spot refl p has (q ∙ ap (◌∷◌ order) p)
              (same_state a st))
      | inr has_none ↦
          let (q, s) = finish_exit-frame w st in
          rw has_none (closed filled nought spot (no_size has_none) (q ∙ p ∙ rw has_none) s)
    ]

    spot_filled-Legs :
        (filled : F) (w : World F E)
        → Reports sv old (spot_exit_order plan spot_cloid) filled
        → lt nought plan.spot_size ≡ true
        → placed w.calls ≡ spot_exit_order plan spot_cloid ∷ old
        → state_of w ≡ State.exit
        → Legs (spot_filled_exit sv snap plan perp_cloid filled w)
    unfolding spot_filled_exit back_to_hedge
    spot_filled-Legs filled w report has p st =
        elim (Bool-cases (lt (add filled flat_epsilon) plan.spot_size)) [
          | inl short ↦
              let (q, s) = back_to_hedge-frame plan filled spot_exit_unfilled w st in
              rw short (spot_short filled report short (q ∙ ap (with_undoing plan filled) p) s)
          | inr full ↦ rw full (perp_leg-Legs filled w (filled_up report full) (p ∙ rw has) st)
        ]

    after_spot-Legs :
        (r : Result (String × F × Bool)) (w from : World F E)
        → (place_and_wait sv (spot_exit_order plan spot_cloid) from).0 ≡ r
        → placed from.calls ≡ old
        → lt nought plan.spot_size ≡ true
        → placed w.calls ≡ spot_exit_order plan spot_cloid ∷ old
        → state_of w ≡ State.exit
        → Legs (after_spot_exit sv snap plan perp_cloid (r, w))
    after_spot-Legs (err x) w from e before has p st = spot_failed from has before e p st
    after_spot-Legs (ok (id, filled, is_open)) w from e before has p st =
        let q = cancel_if_open-Quiet sv is_open plan.spot_id id w in
        spot_filled-Legs filled _ (from, id, is_open, before, e) has (q.same_placed ∙ p)
          (same_state q.same_app st)

    place_exit_legs-Legs :
        (w : World F E)
        → placed w.calls ≡ old
        → state_of w ≡ State.exit
        → Legs (place_exit_legs sv snap plan spot_cloid perp_cloid w)
    unfolding place_exit_legs
    place_exit_legs-Legs w p st = elim (Bool-cases (lt nought plan.spot_size)) [
      | inl has ↦
          let order = spot_exit_order plan spot_cloid in
          let (q, a) = place_and_wait-placed sv order w in
          let r = place_and_wait sv order w in
          rw has (after_spot-Legs r.0 r.1 w refl p has (q ∙ ap (◌∷◌ order) p) (same_state a st))
      | inr has_none ↦ rw has_none (perp_leg-Legs nought w (no_size has_none) (p ∙ rw has_none) st)
    ]

  cloid_for-Unready :
      (plan : ExitPlan F) (size : F) (from : E) (x : Err)
      → (cloid_for sv size from).0 ≡ err x
      → Unready sv (ok plan) x
  cloid_for-Unready plan size from x h = elim (Bool-cases (lt nought size)) [
    | inl has ↦ no_cloid plan from refl (rw has at h)
    | inr none ↦ absurd (cc (rw none at h))
  ]

  module _ (plan : ExitPlan F) (old : List (Order F)) where
    exit_perp_cloid-Outcome :
        (spot_cloid : String) (w : World F E) (c : Result String × E) (size : F) (from : E)
        → cloid_for sv size from ≡ c
        → placed w.calls ≡ old
        → state_of w ≡ State.exit
        → ExitOutcome sv (ok plan) old (exit_perp_cloid sv snap plan spot_cloid w c)
    exit_perp_cloid-Outcome spot_cloid w (err x, e) size from h p st =
        not_started (cloid_for-Unready plan size from x (ap (λ c. c.0) h)) p st
    exit_perp_cloid-Outcome spot_cloid w (ok perp_cloid, e) size from h p st =
        started plan spot_cloid perp_cloid refl
          (place_exit_legs-Legs plan spot_cloid perp_cloid old (set_env e w) p st)

    exit_spot_cloid-Outcome :
        (w : World F E) (c : Result String × E) (size : F) (from : E)
        → cloid_for sv size from ≡ c
        → placed w.calls ≡ old
        → state_of w ≡ State.exit
        → ExitOutcome sv (ok plan) old (exit_spot_cloid sv snap plan w c)
    exit_spot_cloid-Outcome w (err x, e) size from h p st =
        not_started (cloid_for-Unready plan size from x (ap (λ c. c.0) h)) p st
    exit_spot_cloid-Outcome w (ok spot_cloid, e) size from h p st =
        exit_perp_cloid-Outcome spot_cloid w (cloid_for sv plan.perp_size e) plan.perp_size e refl p
          st

    nothing-Outcome :
        (w : World F E)
        → (le plan.spot_size nought && le plan.perp_size nought) ≡ true
        → placed w.calls ≡ old
        → state_of w ≡ State.exit
        → ExitOutcome sv (ok plan) old (ok tt, apply_event Event.done w)
    unfolding apply_event next_state
    nothing-Outcome w h p st = nothing_left plan refl (ground arith) (ground arith) p (ground arith)

  carry_out_exit-Outcome :
      (plan : Result (ExitPlan F)) (old : List (Order F)) (w : World F E)
      → placed w.calls ≡ old
      → state_of w ≡ State.exit
      → ExitOutcome sv plan old (carry_out_exit sv snap plan w)
  carry_out_exit-Outcome (err x) old w p st = not_started (no_plan refl) p st
  carry_out_exit-Outcome (ok plan) old w p st =
      elim (Bool-cases (le plan.spot_size nought && le plan.perp_size nought)) [
        | inl h ↦ rw h (nothing-Outcome plan old w h p st)
        | inr h ↦ rw h (
            exit_spot_cloid-Outcome plan old w (cloid_for sv plan.spot_size w.env) plan.spot_size
              w.env refl p st)
      ]

  report_exit_legs :
      (plan : ExitPlan F) (spot_cloid perp_cloid : String) (old : List (Order F))
      (r : Result (Unit {0}) × World F E)
      → ExitLegsOutcome sv plan spot_cloid perp_cloid old r
      → ExitLegsOutcome sv plan spot_cloid perp_cloid old (report_exit sv snap r)
  report_exit_legs plan sc pc old r (spot_failed w has b e p s) = spot_failed w has b e p s
  report_exit_legs plan sc pc old r (spot_short f r1 h p s) = spot_short f r1 h p s
  report_exit_legs plan sc pc old r (perp_failed f o has l p s) = perp_failed f o has l p s
  report_exit_legs plan sc pc old r (closed f g o1 o2 p s) = closed f g o1 o2 p s

  report_exit-Outcome :
      (planned : Result (ExitPlan F)) (old : List (Order F)) (r : Result (Unit {0}) × World F E)
      → ExitOutcome sv planned old r
      → ExitOutcome sv planned old (report_exit sv snap r)
  report_exit-Outcome planned old r (not_started u p s) = not_started u p s
  report_exit-Outcome planned old r (nothing_left plan e h k p s) = nothing_left plan e h k p s
  report_exit-Outcome planned old r (started plan sc pc e l) =
      started plan sc pc e (report_exit_legs plan sc pc old r l)

  -- `exitPosition` of a hedged bot. An error before the first order, of the planning or of a
  -- client order id, leaves the state `EXIT` and places nothing, and with both sizes `<= 0` the state is `IDLE` with nothing placed. Otherwise the
  -- order of the spot leg comes first, if it has a size. If `placeAndWait` fails for it, the state
  -- stays `EXIT`; if it fills short, what it filled is undone and the state is `HEDGE_OK`. Only then
  -- comes the reducing order of the perp leg, if it has a size; if `placeAndWait` fails for it or it fills short, what
  -- the spot leg filled is undone and the state is `HEDGE_OK`. A success leaves the state `IDLE`, with
  -- just the orders of the legs that have a size, none of which fills short. A fill here is the one
  -- that `placeAndWait` reports of the order.
  pub exit_position-ExitOutcome :
      (w : World F E)
      → state_of w ≡ State.hedge_ok
      → ExitOutcome sv (planned_exit sv snap w) (placed w.calls) (exit_position sv snap w)
  unfolding exit_position apply_event next_state
  exit_position-ExitOutcome w h =
      let (p, s, m, c) = persist-placed sv snap (apply_event Event.exit w) in
      report_exit-Outcome (planned_exit sv snap w) (placed w.calls) _ (
        carry_out_exit-Outcome (planned_exit sv snap w) (placed w.calls) (exiting sv snap w) p
          (ap (λ (x : StateMachine). x.state) s ∙ rw h))
