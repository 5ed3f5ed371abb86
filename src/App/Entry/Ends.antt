-- ===== src/App/Entry/Ends.antt =====
-- The ways in which `enterPosition` ends: the orders that it has placed, the state and the result.
use hyper_basis.Prelude.{◌≡◌, String, true, false, List, ◌∷◌}
use hyper_basis.Prelude.Float.{Float64, nought}
use hyper_basis.Prelude.Result.{
  Err, Result, ok, err, spot_entry_unfilled, perp_entry_unfilled, perp_size_zero,
}
use hyper_basis.Strategy.{State}
use hyper_basis.Exec.{Order}
use hyper_basis.App.{Services, World, placed}
use hyper_basis.App.Numbers.{round_size}
use hyper_basis.App.Fills.{rollback_order}
use hyper_basis.App.Frame.{Reports, LegFailed}
use hyper_basis.App.Upkeep.{ensure_entry_usdc}
use hyper_basis.App.Entry.{EntryPlan, spot_entry_order, perp_entry_order}

-- The order that sells `size` of the spot fill again.
abbrev pub unwinding : {F : Type 0} → EntryPlan F → F → Order F
unwinding plan size = rollback_order plan.spot_id size plan.spot_rollback_limit false

module _ {F E : Type 0} ⦃fl : Float64 F⦄ where
  open fl use {sub, mul, lt, le}

  abbrev pub state_of : World F E → State
  state_of w = w.app.strategy.state

  -- `old` are the orders placed before.
  pub data LegsOutcome (sv : Services F E) (plan : EntryPlan F) (spot_cloid perp_cloid : String)
      (old : List (Order F)) : Result (Unit {0}) × World F E → Type 0 where
    spot_failed :
        {w : World F E} {x : Err}
        → LegFailed sv old
            (spot_entry_order plan spot_cloid)
            (λ size. le size nought ≡ true)
            spot_entry_unfilled
            x
        → placed w.calls ≡ spot_entry_order plan spot_cloid ∷ old
        → state_of w ≡ State.idle
        → LegsOutcome sv plan spot_cloid perp_cloid old (err x, w)
    too_small :
        {w : World F E} (spot_filled : F)
        → Reports sv old (spot_entry_order plan spot_cloid) spot_filled
        → le spot_filled nought ≡ false
        → le (round_size spot_filled plan.perp_sz_decimals) nought ≡ true
        → placed w.calls ≡ unwinding plan spot_filled ∷ spot_entry_order plan spot_cloid ∷ old
        → state_of w ≡ State.idle
        → LegsOutcome sv plan spot_cloid perp_cloid old (err perp_size_zero, w)
    perp_failed :
        {w : World F E} {x : Err} (spot_filled : F)
        → Reports sv old (spot_entry_order plan spot_cloid) spot_filled
        → le spot_filled nought ≡ false
        → LegFailed sv
            (spot_entry_order plan spot_cloid ∷ old)
            (perp_entry_order plan perp_cloid (round_size spot_filled plan.perp_sz_decimals))
            (λ size. le size nought ≡ true)
            perp_entry_unfilled
            x
        → placed w.calls
          ≡ unwinding plan spot_filled
            ∷ perp_entry_order plan perp_cloid (round_size spot_filled plan.perp_sz_decimals)
            ∷ spot_entry_order plan spot_cloid
            ∷ old
        → state_of w ≡ State.idle
        → LegsOutcome sv plan spot_cloid perp_cloid old (err x, w)
    hedged :
        {w : World F E} {u : Unit {0}} (spot_filled perp_filled : F)
        → Reports sv old (spot_entry_order plan spot_cloid) spot_filled
        → le spot_filled nought ≡ false
        → Reports sv
            (spot_entry_order plan spot_cloid ∷ old)
            (perp_entry_order plan perp_cloid (round_size spot_filled plan.perp_sz_decimals))
            perp_filled
        → le perp_filled nought ≡ false
        → lt nought (sub spot_filled perp_filled) ≡ false
        → placed w.calls
          ≡ perp_entry_order plan perp_cloid (round_size spot_filled plan.perp_sz_decimals)
            ∷ spot_entry_order plan spot_cloid
            ∷ old
        → state_of w ≡ State.hedge_ok
        → LegsOutcome sv plan spot_cloid perp_cloid old (ok u, w)
    hedged_in_part :
        {w : World F E} {u : Unit {0}} (spot_filled perp_filled : F)
        → Reports sv old (spot_entry_order plan spot_cloid) spot_filled
        → le spot_filled nought ≡ false
        → Reports sv
            (spot_entry_order plan spot_cloid ∷ old)
            (perp_entry_order plan perp_cloid (round_size spot_filled plan.perp_sz_decimals))
            perp_filled
        → le perp_filled nought ≡ false
        → placed w.calls
          ≡ unwinding plan (sub spot_filled perp_filled)
            ∷ perp_entry_order plan perp_cloid (round_size spot_filled plan.perp_sz_decimals)
            ∷ spot_entry_order plan spot_cloid
            ∷ old
        → state_of w ≡ State.hedge_ok
        → LegsOutcome sv plan spot_cloid perp_cloid old (ok u, w)

  -- The errors before the first order: nothing could be derived for the entry, the USDC for it is not
  -- there, or a client order id cannot be made.
  pub data Unready (sv : Services F E) (planned : Result (EntryPlan F)) : Err → Type 0 where
    no_plan : {x : Err} → planned ≡ err x → Unready sv planned x
    no_usdc :
        {x : Err} (plan : EntryPlan F) (w : World F E)
        → planned ≡ ok plan
        → (ensure_entry_usdc sv
            (mul plan.spot_size plan.spot_limit)
            (mul plan.spot_size plan.perp_limit)
            w).0
          ≡ err x
        → Unready sv planned x
    no_cloid :
        {x : Err} (plan : EntryPlan F) (e : E)
        → planned ≡ ok plan
        → (sv.new_cloid e).0 ≡ err x
        → Unready sv planned x

  -- `planned` is what was derived for the entry.
  pub data EntryOutcome (sv : Services F E) (planned : Result (EntryPlan F)) (old : List (Order F))
      : Result (Unit {0}) × World F E → Type 0 where
    not_started :
        {w : World F E} {x : Err}
        → Unready sv planned x
        → placed w.calls ≡ old
        → state_of w ≡ State.enter
        → EntryOutcome sv planned old (err x, w)
    started :
        {r : Result (Unit {0}) × World F E} (plan : EntryPlan F) (spot_cloid perp_cloid : String)
        → planned ≡ ok plan
        → LegsOutcome sv plan spot_cloid perp_cloid old r
        → EntryOutcome sv planned old r
