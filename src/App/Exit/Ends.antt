-- ===== src/App/Exit/Ends.antt =====
-- The ways in which `exitPosition` ends: the orders that it has placed, the state and the result.
use hyper_basis.Prelude.{◌≡◌, String, true, false, List, ◌∷◌, if◌then◌else◌}
use hyper_basis.Prelude.Float.{Float64, nought}
use hyper_basis.Prelude.Result.{Err, Result, ok, err, spot_exit_unfilled, perp_exit_unfilled}
use hyper_basis.Strategy.{State}
use hyper_basis.Exec.{Order}
use hyper_basis.App.{Services, World, placed}
use hyper_basis.App.Numbers.{flat_epsilon}
use hyper_basis.App.Fills.{rollback_order, place_and_wait}
use hyper_basis.App.Frame.{Reports, LegFailed}
use hyper_basis.App.Entry.Ends.{state_of}
use hyper_basis.App.Exit.{ExitPlan, spot_exit_order, perp_exit_order}

-- The order that buys back, or sells back, what the spot leg has filled.
abbrev pub undoing : {F : Type 0} → ExitPlan F → F → Order F
undoing plan size = rollback_order plan.spot_id size plan.spot_rollback_limit plan.rollback_is_buy

module _ {F : Type 0} ⦃fl : Float64 F⦄ where
  open fl use {lt}

  -- The orders after a spot leg, which is skipped where it has no size, and after an undoing, which
  -- is skipped where nothing has filled.
  abbrev pub with_spot_leg : ExitPlan F → String → List (Order F) → List (Order F)
  with_spot_leg plan cloid old =
      if lt nought plan.spot_size then spot_exit_order plan cloid ∷ old else old

  abbrev pub with_perp_leg : ExitPlan F → String → List (Order F) → List (Order F)
  with_perp_leg plan cloid old =
      if lt nought plan.perp_size then perp_exit_order plan cloid ∷ old else old

  abbrev pub with_undoing : ExitPlan F → F → List (Order F) → List (Order F)
  with_undoing plan filled old = if lt nought filled then undoing plan filled ∷ old else old

module _ {F E : Type 0} ⦃fl : Float64 F⦄ where
  open fl use {add, lt, le}

  -- A leg is over when it has no size, or when what is reported of its order is not short of it.
  pub data LegOver (sv : Services F E) (before : List (Order F)) (order : Order F)
      : F → Type 0 where
    no_size : lt nought order.size ≡ false → LegOver sv before order nought
    filled_up :
        {size : F}
        → Reports sv before order size
        → lt (add size flat_epsilon) order.size ≡ false
        → LegOver sv before order size

  pub data ExitLegsOutcome (sv : Services F E) (plan : ExitPlan F) (spot_cloid perp_cloid : String)
      (old : List (Order F)) : Result (Unit {0}) × World F E → Type 0 where
    spot_failed :
        {w : World F E} {x : Err} (from : World F E)
        → lt nought plan.spot_size ≡ true
        → placed from.calls ≡ old
        → (place_and_wait sv (spot_exit_order plan spot_cloid) from).0 ≡ err x
        → placed w.calls ≡ spot_exit_order plan spot_cloid ∷ old
        → state_of w ≡ State.exit
        → ExitLegsOutcome sv plan spot_cloid perp_cloid old (err x, w)
    spot_short :
        {w : World F E} (spot_filled : F)
        → Reports sv old (spot_exit_order plan spot_cloid) spot_filled
        → lt (add spot_filled flat_epsilon) plan.spot_size ≡ true
        → placed w.calls ≡ with_undoing plan spot_filled (spot_exit_order plan spot_cloid ∷ old)
        → state_of w ≡ State.hedge_ok
        → ExitLegsOutcome sv plan spot_cloid perp_cloid old (err spot_exit_unfilled, w)
    perp_failed :
        {w : World F E} {x : Err} (spot_filled : F)
        → LegOver sv old (spot_exit_order plan spot_cloid) spot_filled
        → lt nought plan.perp_size ≡ true
        → LegFailed sv
            (with_spot_leg plan spot_cloid old)
            (perp_exit_order plan perp_cloid)
            (λ size. lt (add size flat_epsilon) plan.perp_size ≡ true)
            perp_exit_unfilled
            x
        → placed w.calls
          ≡ with_undoing plan spot_filled
              (perp_exit_order plan perp_cloid ∷ with_spot_leg plan spot_cloid old)
        → state_of w ≡ State.hedge_ok
        → ExitLegsOutcome sv plan spot_cloid perp_cloid old (err x, w)
    closed :
        {w : World F E} {u : Unit {0}} (spot_filled perp_filled : F)
        → LegOver sv old (spot_exit_order plan spot_cloid) spot_filled
        → LegOver sv
            (with_spot_leg plan spot_cloid old)
            (perp_exit_order plan perp_cloid)
            perp_filled
        → placed w.calls ≡ with_perp_leg plan perp_cloid (with_spot_leg plan spot_cloid old)
        → state_of w ≡ State.idle
        → ExitLegsOutcome sv plan spot_cloid perp_cloid old (ok u, w)

  -- The errors before the first order: nothing could be derived for the exit, or a client order id cannot
  -- be made.
  pub data Unready (sv : Services F E) (planned : Result (ExitPlan F)) : Err → Type 0 where
    no_plan : {x : Err} → planned ≡ err x → Unready sv planned x
    no_cloid :
        {x : Err} (plan : ExitPlan F) (e : E)
        → planned ≡ ok plan
        → (sv.new_cloid e).0 ≡ err x
        → Unready sv planned x

  pub data ExitOutcome (sv : Services F E) (planned : Result (ExitPlan F)) (old : List (Order F))
      : Result (Unit {0}) × World F E → Type 0 where
    not_started :
        {w : World F E} {x : Err}
        → Unready sv planned x
        → placed w.calls ≡ old
        → state_of w ≡ State.exit
        → ExitOutcome sv planned old (err x, w)
    nothing_left :
        {w : World F E} {u : Unit {0}} (plan : ExitPlan F)
        → planned ≡ ok plan
        → le plan.spot_size nought ≡ true
        → le plan.perp_size nought ≡ true
        → placed w.calls ≡ old
        → state_of w ≡ State.idle
        → ExitOutcome sv planned old (ok u, w)
    started :
        {r : Result (Unit {0}) × World F E} (plan : ExitPlan F) (spot_cloid perp_cloid : String)
        → planned ≡ ok plan
        → ExitLegsOutcome sv plan spot_cloid perp_cloid old r
        → ExitOutcome sv planned old r
