-- ===== src/App/Entry/Outcome.antt =====
-- How `enterPosition` can end: the orders that it has placed, the state of the machine and the
-- result.
use hyper_basis.Prelude.{
  ◌≡◌, refl, ◌∙◌, ap, inl, inr, String, Bool, true, false, List, ◌∷◌, arith, Bool-cases,
}
use hyper_basis.Prelude.Float.{Float64, nought, IsOrdered}
use hyper_basis.Prelude.Result.{Err, Result, ok, err, perp_size_zero, perp_entry_unfilled}
use hyper_basis.Strategy.{State, StateMachine, Event, MarketSnapshot, next_state}
use hyper_basis.Exec.{Order}
use hyper_basis.App.{
  Services, World, placed, apply_event, orders_placed_inc, orders_failed_inc, set_env,
}
use hyper_basis.App.Numbers.{round_size}
use hyper_basis.App.Fills.{place_and_wait, rollback_spot}
use hyper_basis.App.Upkeep.{ensure_entry_usdc}
use hyper_basis.App.Frame.{
  same_state, reset_to_idle-idle, reset_to_idle-placed, cancel_if_open-Quiet, persist-placed,
  place_and_wait-placed, rollback-placed, Reports, LegFailed, leg_refused, leg_short,
  ensure_entry_usdc-Quiet,
}
use hyper_basis.App.Entry.{
  EntryPlan, spot_entry_order, perp_entry_order, unwind_entry, finish_entry, sell_residual,
  perp_done, after_perp, perp_leg, spot_done, after_spot, place_entry_legs, with_perp_cloid,
  with_spot_cloid, after_usdc, carry_out_entry, report_entry, entering, planned_entry,
  enter_position,
}
use hyper_basis.App.Entry.Ends.{
  unwinding, state_of, LegsOutcome, EntryOutcome, spot_failed, too_small, perp_failed, hedged,
  hedged_in_part, not_started, no_plan, no_usdc, no_cloid, started,
}

module _ {F E : Type 0} ⦃fl : Float64 F⦄ (sv : Services F E) (laws : IsOrdered fl)
    (snap : MarketSnapshot F) where
  open fl use {sub, mul, lt, le}

  finish_entry-frame :
      (filled : F) (w : World F E)
      → state_of w ≡ State.enter
      → (placed (finish_entry sv snap filled w).calls ≡ placed w.calls)
        × (state_of (finish_entry sv snap filled w) ≡ State.hedge_ok)
  unfolding finish_entry next_state
  finish_entry-frame filled w h = ground arith

  unwind_entry-frame :
      (plan : EntryPlan F) (filled : F) (x : Err) (w : World F E)
      → le filled nought ≡ false
      → let w' = (unwind_entry sv plan filled x w).1 in
        (placed w'.calls ≡ unwinding plan filled ∷ placed w.calls) × (state_of w' ≡ State.idle)
  unfolding unwind_entry rollback_spot
  unwind_entry-frame plan filled x w h =
      let w' = (rollback_spot sv plan.spot_id filled plan.spot_rollback_limit w).1 in
      (
        reset_to_idle-placed w'
            ∙ (rollback-placed sv plan.spot_id filled plan.spot_rollback_limit false w h).0,
        reset_to_idle-idle w',
      )

  module _ (plan : EntryPlan F) (spot_cloid perp_cloid : String) (old : List (Order F))
      (spot_filled : F)
      (spot_report : Reports sv old (spot_entry_order plan spot_cloid) spot_filled)
      (positive : le spot_filled nought ≡ false) where
    abbrev spot_order : Order F
    spot_order = spot_entry_order plan spot_cloid

    abbrev IsUnfilled : F → Type 0
    IsUnfilled size = le size nought ≡ true

    abbrev perp_order : Order F
    perp_order = perp_entry_order plan perp_cloid (round_size spot_filled plan.perp_sz_decimals)

    unwound-Outcome :
        (x : Err) (w : World F E)
        → LegFailed sv (spot_order ∷ old) perp_order IsUnfilled perp_entry_unfilled x
        → placed w.calls ≡ perp_order ∷ spot_order ∷ old
        → LegsOutcome sv plan spot_cloid perp_cloid old (unwind_entry sv plan spot_filled x w)
    unfolding unwind_entry
    unwound-Outcome x w failed p =
        let (q, s) = unwind_entry-frame plan spot_filled x w positive in
        perp_failed spot_filled spot_report positive failed
          (q ∙ ap (◌∷◌ (unwinding plan spot_filled)) p) s

    -- Selling the residual places one order if it is positive, and nothing otherwise.
    sold-Outcome :
        (perp_filled : F) (w : World F E)
        → Reports sv (spot_order ∷ old) perp_order perp_filled
        → le perp_filled nought ≡ false
        → placed w.calls ≡ perp_order ∷ spot_order ∷ old
        → state_of w ≡ State.enter
        → LegsOutcome sv plan spot_cloid perp_cloid old (
          ok tt,
          finish_entry sv snap perp_filled (sell_residual sv plan (sub spot_filled perp_filled) w),
        )
    unfolding rollback_spot
    sold-Outcome perp_filled w report h p st =
        let residual = sub spot_filled perp_filled in
        elim (Bool-cases (lt nought residual)) [
          | inl pos ↦
              let some_left : le residual nought ≡ false =
                ground (arith, laws.not_lt_of_le residual nought) in
              let w' = (rollback_spot sv plan.spot_id residual plan.spot_rollback_limit w).1 in
              let (q, a) =
                rollback-placed sv plan.spot_id residual plan.spot_rollback_limit false w
                  some_left in
              let (f, s) = finish_entry-frame perp_filled w' (same_state a st) in
              rw pos (
                hedged_in_part spot_filled perp_filled spot_report positive report h
                  (f ∙ (q ∙ ap (◌∷◌ (unwinding plan residual)) p)) s)
          | inr none_left ↦
              let (f, s) = finish_entry-frame perp_filled w st in
              rw none_left
                (hedged spot_filled perp_filled spot_report positive report h none_left (f ∙ p) s)
        ]

    perp_done-Outcome :
        (perp_filled : F) (w : World F E)
        → Reports sv (spot_order ∷ old) perp_order perp_filled
        → placed w.calls ≡ perp_order ∷ spot_order ∷ old
        → state_of w ≡ State.enter
        → LegsOutcome sv plan spot_cloid perp_cloid old
            (perp_done sv snap plan spot_filled perp_filled w)
    unfolding perp_done
    perp_done-Outcome perp_filled w report p st = elim (Bool-cases (le perp_filled nought)) [
      | inl h ↦ rw h (unwound-Outcome perp_entry_unfilled w (leg_short report h) p)
      | inr h ↦ rw h (sold-Outcome perp_filled w report h p st)
    ]

    after_perp-Outcome :
        (r : Result (String × F × Bool)) (w from : World F E)
        → (place_and_wait sv perp_order from).0 ≡ r
        → placed from.calls ≡ spot_order ∷ old
        → placed w.calls ≡ perp_order ∷ spot_order ∷ old
        → state_of w ≡ State.enter
        → LegsOutcome sv plan spot_cloid perp_cloid old (after_perp sv snap plan spot_filled (r, w))
    after_perp-Outcome (err x) w from e before p st =
        unwound-Outcome x (orders_failed_inc w) (leg_refused from before e) p
    after_perp-Outcome (ok (id, perp_filled, is_open)) w from e before p st =
        let q = cancel_if_open-Quiet sv is_open plan.perp_id id (orders_placed_inc w) in
        perp_done-Outcome perp_filled _ (from, id, is_open, before, e) (q.same_placed ∙ p)
          (same_state q.same_app st)

    perp_leg-Outcome :
        (w : World F E)
        → placed w.calls ≡ spot_order ∷ old
        → state_of w ≡ State.enter
        → LegsOutcome sv plan spot_cloid perp_cloid old
            (perp_leg sv snap plan perp_cloid spot_filled w)
    unfolding perp_leg unwind_entry
    perp_leg-Outcome w p st =
        let size = round_size spot_filled plan.perp_sz_decimals in
        elim (Bool-cases (le size nought)) [
          | inl h ↦
              let (q, s) = unwind_entry-frame plan spot_filled perp_size_zero w positive in
              rw h (
                too_small spot_filled spot_report positive h
                  (q ∙ ap (◌∷◌ (unwinding plan spot_filled)) p) s)
          | inr h ↦
              let (q, a) = place_and_wait-placed sv perp_order w in
              let r = place_and_wait sv perp_order w in
              rw h
                (after_perp-Outcome r.0 r.1 w refl p (q ∙ ap (◌∷◌ perp_order) p) (same_state a st))
        ]

  module _ (plan : EntryPlan F) (spot_cloid perp_cloid : String) (old : List (Order F)) where
    spot_done-Outcome :
        (spot_filled : F) (w : World F E)
        → Reports sv old (spot_entry_order plan spot_cloid) spot_filled
        → placed w.calls ≡ spot_entry_order plan spot_cloid ∷ old
        → state_of w ≡ State.enter
        → LegsOutcome sv plan spot_cloid perp_cloid old
            (spot_done sv snap plan perp_cloid spot_filled w)
    unfolding spot_done
    spot_done-Outcome spot_filled w report p st = elim (Bool-cases (le spot_filled nought)) [
      | inl h ↦
          rw h
            (spot_failed (leg_short report h) (reset_to_idle-placed w ∙ p) (reset_to_idle-idle w))
      | inr h ↦ rw h (perp_leg-Outcome plan spot_cloid perp_cloid old spot_filled report h w p st)
    ]

    after_spot-Outcome :
        (r : Result (String × F × Bool)) (w from : World F E)
        → (place_and_wait sv (spot_entry_order plan spot_cloid) from).0 ≡ r
        → placed from.calls ≡ old
        → placed w.calls ≡ spot_entry_order plan spot_cloid ∷ old
        → state_of w ≡ State.enter
        → LegsOutcome sv plan spot_cloid perp_cloid old (after_spot sv snap plan perp_cloid (r, w))
    after_spot-Outcome (err x) w from e before p st =
        let w' = orders_failed_inc w in
        spot_failed (leg_refused from before e) (reset_to_idle-placed w' ∙ p)
          (reset_to_idle-idle w')
    after_spot-Outcome (ok (id, spot_filled, is_open)) w from e before p st =
        let q = cancel_if_open-Quiet sv is_open plan.spot_id id (orders_placed_inc w) in
        spot_done-Outcome spot_filled _ (from, id, is_open, before, e) (q.same_placed ∙ p)
          (same_state q.same_app st)

    legs-Outcome :
        (w : World F E)
        → placed w.calls ≡ old
        → state_of w ≡ State.enter
        → LegsOutcome sv plan spot_cloid perp_cloid old
            (place_entry_legs sv snap plan spot_cloid perp_cloid w)
    unfolding place_entry_legs
    legs-Outcome w p st =
        let order = spot_entry_order plan spot_cloid in
        let (q, a) = place_and_wait-placed sv order w in
        let r = place_and_wait sv order w in
        after_spot-Outcome r.0 r.1 w refl p (q ∙ ap (◌∷◌ order) p) (same_state a st)

  module _ (plan : EntryPlan F) (old : List (Order F)) where
    perp_cloid-Outcome :
        (spot_cloid : String) (w : World F E) (c : Result String × E) (from : E)
        → sv.new_cloid from ≡ c
        → placed w.calls ≡ old
        → state_of w ≡ State.enter
        → EntryOutcome sv (ok plan) old (with_perp_cloid sv snap plan spot_cloid w c)
    perp_cloid-Outcome spot_cloid w (err x, e) from h p st =
        not_started (no_cloid plan from refl (ap (λ c. c.0) h)) p st
    perp_cloid-Outcome spot_cloid w (ok perp_cloid, e) from h p st =
        started plan spot_cloid perp_cloid refl
          (legs-Outcome plan spot_cloid perp_cloid old (set_env e w) p st)

    spot_cloid-Outcome :
        (w : World F E) (c : Result String × E) (from : E)
        → sv.new_cloid from ≡ c
        → placed w.calls ≡ old
        → state_of w ≡ State.enter
        → EntryOutcome sv (ok plan) old (with_spot_cloid sv snap plan w c)
    spot_cloid-Outcome w (err x, e) from h p st =
        not_started (no_cloid plan from refl (ap (λ c. c.0) h)) p st
    spot_cloid-Outcome w (ok spot_cloid, e) from h p st =
        perp_cloid-Outcome spot_cloid w (sv.new_cloid e) e refl p st

    after_usdc-Outcome :
        (r : Result (Unit {0})) (w from : World F E)
        → (ensure_entry_usdc sv
            (mul plan.spot_size plan.spot_limit)
            (mul plan.spot_size plan.perp_limit)
            from).0
          ≡ r
        → placed w.calls ≡ old
        → state_of w ≡ State.enter
        → EntryOutcome sv (ok plan) old (after_usdc sv snap plan (r, w))
    after_usdc-Outcome (err x) w from h p st = not_started (no_usdc plan from refl h) p st
    after_usdc-Outcome (ok u) w from h p st =
        spot_cloid-Outcome w (sv.new_cloid w.env) w.env refl p st

  module _ (old : List (Order F)) where
    carry_out_entry-Outcome :
        (plan : Result (EntryPlan F)) (w : World F E)
        → placed w.calls ≡ old
        → state_of w ≡ State.enter
        → EntryOutcome sv plan old (carry_out_entry sv snap plan w)
    carry_out_entry-Outcome (err x) w p st = not_started (no_plan refl) p st
    carry_out_entry-Outcome (ok plan) w p st =
        let a = mul plan.spot_size plan.spot_limit in
        let b = mul plan.spot_size plan.perp_limit in
        let q = ensure_entry_usdc-Quiet sv a b w in
        let r = ensure_entry_usdc sv a b w in
        after_usdc-Outcome plan old r.0 r.1 w refl (q.same_placed ∙ p) (same_state q.same_app st)

    report_legs :
        (plan : EntryPlan F) (spot_cloid perp_cloid : String) (r : Result (Unit {0}) × World F E)
        → LegsOutcome sv plan spot_cloid perp_cloid old r
        → LegsOutcome sv plan spot_cloid perp_cloid old (report_entry sv snap r)
    report_legs plan sc pc r (spot_failed f p s) = spot_failed f p s
    report_legs plan sc pc r (too_small f r1 h k p s) = too_small f r1 h k p s
    report_legs plan sc pc r (perp_failed f r1 h l p s) = perp_failed f r1 h l p s
    report_legs plan sc pc r (hedged f g r1 h r2 k l p s) = hedged f g r1 h r2 k l p s
    report_legs plan sc pc r (hedged_in_part f g r1 h r2 k p s) = hedged_in_part f g r1 h r2 k p s

    report_entry-Outcome :
        (planned : Result (EntryPlan F)) (r : Result (Unit {0}) × World F E)
        → EntryOutcome sv planned old r
        → EntryOutcome sv planned old (report_entry sv snap r)
    report_entry-Outcome planned r (not_started u p s) = not_started u p s
    report_entry-Outcome planned r (started plan sc pc e l) =
        started plan sc pc e (report_legs plan sc pc r l)

  -- `enterPosition` of an idle bot ends in one of six ways. An error before the first order, of the
  -- planning, of the transfer of USDC or of a client order id, leaves the state `ENTER` and places
  -- nothing. Otherwise a spot buy is placed first; just if `placeAndWait` fails for it or reports a fill
  -- `<= 0`, no other order is, and the state is `IDLE`. A perp sell is placed only for a spot fill that is not `<= 0`, and
  -- its size is that fill rounded down; if it fails, does not fill or would round to nothing, the
  -- last order sells the whole spot fill again and the state is `IDLE`. The entry succeeds only with
  -- a perp fill that is not `<= 0`: the state is `HEDGE_OK`, and a positive residual of the spot fill
  -- is sold. A fill here is the one that `placeAndWait` reports of the order.
  pub enter_position-EntryOutcome :
      (w : World F E)
      → state_of w ≡ State.idle
      → EntryOutcome sv (planned_entry sv snap w) (placed w.calls) (enter_position sv snap w)
  unfolding enter_position apply_event next_state
  enter_position-EntryOutcome w h =
      let (p, s, m, c) = persist-placed sv snap (apply_event Event.enter w) in
      report_entry-Outcome (placed w.calls) (planned_entry sv snap w) _ (
        carry_out_entry-Outcome (placed w.calls) (planned_entry sv snap w) (entering sv snap w) p
          (ap (λ (x : StateMachine). x.state) s ∙ rw h))
