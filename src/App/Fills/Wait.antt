-- ===== src/App/Fills/Wait.antt =====
-- How `waitForOrderFill` can end.
use hyper_basis.Prelude.{◌≡◌, String, Bool, true, false, not, ◌&&◌, str_eq}
use hyper_basis.Prelude.Int.{ℤ}
use hyper_basis.Prelude.Float.{Float64, nought}
use hyper_basis.Prelude.Result.{Err, Result, ok, err, order_id_required, context_done}
use hyper_basis.App.{Services}
use hyper_basis.App.Fills.{fill_size_for_order, fill_size_for_order_rest, order_is_open}

module _ {F E : Type 0} ⦃fl : Float64 F⦄ (sv : Services F E) (order_id : String)
    (start_ms : ℤ) where
  open fl use {lt}

  -- A size that is known, or a larger one that the REST client reports of the order.
  pub data Improves (known : F) : F → Type 0 where
    as_known : Improves known known
    larger :
        {size : F} (e : E)
        → (fill_size_for_order_rest sv order_id start_ms e).0 ≡ ok size
        → lt known size ≡ true
        → Improves known size

  -- A round of the loop: the size and the flag that it gets when it asks for the fill and then whether the
  -- order is open, and the size after a check over REST.
  pub record Round (is_open : Bool) (size : F) : Type 0 where
    pub asked_at : E
    pub seen : F
    pub then_at : E
    pub seen_fill : fill_size_for_order sv order_id start_ms asked_at ≡ (ok seen, then_at)
    pub seen_open : (order_is_open sv order_id then_at).0 ≡ ok is_open
    pub checked : Improves seen size

  pub data WaitOutcome (cancelled : Bool) : Result (F × Bool) × E → Type 0 where
    closed :
        {size : F} {e : E}
        → Round false size
        → lt nought size ≡ true
        → WaitOutcome cancelled (ok (size, false), e)
    timed_out :
        {size : F} {is_open : Bool} {e : E} (before : F)
        → cancelled ≡ false
        → Round is_open before
        → (not is_open && lt nought before) ≡ false
        → Improves before size
        → WaitOutcome cancelled (ok (size, is_open), e)
    no_order_id :
        {e : E} → str_eq order_id "" ≡ true → WaitOutcome cancelled (err order_id_required, e)
    ended : {e : E} → cancelled ≡ true → WaitOutcome cancelled (err context_done, e)
    fill_unknown :
        {x : Err} {e : E} (asked_at : E)
        → (fill_size_for_order sv order_id start_ms asked_at).0 ≡ err x
        → WaitOutcome cancelled (err x, e)
    open_unknown :
        {x : Err} {e : E} (asked_at : E)
        → (order_is_open sv order_id asked_at).0 ≡ err x
        → WaitOutcome cancelled (err x, e)

  module _ (cancelled : Bool) where
    -- What may follow a round that did not end the loop ends as it should.
    abbrev EndsWell : (F → Bool → Bool → Bool → E → Result (F × Bool) × E) → Type 0
    EndsWell next =
        (size : F) (is_open a c : Bool) (e : E)
        → Round is_open size
        → (not is_open && lt nought size) ≡ false
        → WaitOutcome cancelled (next size is_open a c e)
