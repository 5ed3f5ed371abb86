-- ===== src/App/Fills.antt =====
-- internal/app/app.go: placing an order and waiting for its fill, best-effort cancels and the rollback
-- of the spot leg.
pub mod Wait
use hyper_basis.Prelude.{
  ℕ, zero, suc, String, Bool, true, false, not, ◌&&◌, ◌||◌, List, [], ◌∷◌, str_eq, if◌then◌else◌,
}
use hyper_basis.Prelude.Int.{ℤ, pos, eqb_ℤ, ◌-ℤ◌, unix_milli, seconds}
use hyper_basis.Prelude.Float.{Float64, nought}
use hyper_basis.Prelude.Result.{Result, ok, err, order_id_required, context_done, rollback_short}
use hyper_basis.Config.{StrategyConfig}
use hyper_basis.Exec.{Order, Cancel}
use hyper_basis.App.{Services, World, place, cancel, OpenOrder, Fill}

abbrev pub rollback_order : {F : Type 0} → ℤ → F → F → Bool → Order F
rollback_order asset_id size limit is_buy = record {
  asset = asset_id;
  is_buy = is_buy;
  size = size;
  limit_price = limit;
  reduce_only = false;
  client_order_id = "";
  tif = "Ioc";
}

module _ {F E : Type 0} ⦃fl : Float64 F⦄ (sv : Services F E) where
  open fl use {lit, add, abs, lt, le}

  -- The loop of `fillSizeForOrderREST`.
  unfoldable pub sum_fills : String → F → List (Fill F) → F
  sum_fills order_id total [] = total
  sum_fills order_id total (fill ∷ fills) =
      sum_fills order_id
        (if str_eq fill.order_id order_id then add total (abs fill.size) else total) fills

  abbrev pub fills_result : String → Result (List (Fill F)) × E → Result F × E
  fills_result order_id (ok fills, e) = (ok (sum_fills order_id nought fills), e)
  fills_result order_id (err x, e) = (err x, e)

  unfoldable pub fill_size_for_order_rest : String → ℤ → E → Result F × E
  unfolding sum_fills
  fill_size_for_order_rest order_id start_ms e =
      fills_result order_id (sv.user_fills_by_time start_ms e)

  unfoldable pub fill_size_for_order : String → ℤ → E → Result F × E
  unfolding fill_size_for_order_rest
  fill_size_for_order order_id start_ms e =
      if sv.fills_enabled e
      then (ok (sv.fill_size order_id e), e)
      else fill_size_for_order_rest order_id start_ms e

  -- `OpenOrderIDs` leaves out the orders with no id.
  unfoldable pub is_listed : String → List OpenOrder → Bool
  is_listed order_id [] = false
  is_listed order_id (o ∷ os) =
      (not (str_eq o.order_id "") && str_eq o.order_id order_id) || is_listed order_id os

  abbrev pub open_result : String → Result (List OpenOrder) × E → Result Bool × E
  open_result order_id (ok os, e) = (ok (is_listed order_id os), e)
  open_result order_id (err x, e) = (err x, e)

  unfoldable pub order_is_open : String → E → Result Bool × E
  unfolding is_listed
  order_is_open order_id e = open_result order_id (sv.open_orders e)

  -- One REST check of the fill: the larger of the two sizes, and whether the check succeeded.
  abbrev pub improved : F → Result F × E → (F × Bool) × E
  improved filled (ok rest_filled, e) =
      ((if lt filled rest_filled then rest_filled else filled, true), e)
  improved filled (err x, e) = ((filled, false), e)

  abbrev pub check_rest : Bool → String → ℤ → F → E → (F × Bool) × E
  check_rest wanted order_id start_ms filled e =
      if wanted
      then improved filled (fill_size_for_order_rest order_id start_ms e)
      else ((filled, false), e)

  -- The `select` when the ticker wakes the loop no more: the context has ended, or the deadline has
  -- come and the fill is checked over REST if it was not checked before.
  abbrev pub at_end : String → ℤ → Bool → F → Bool → Bool → E → Result (F × Bool) × E
  at_end order_id start_ms true filled is_open rest_checked e = (err context_done, e)
  at_end order_id start_ms false filled is_open rest_checked e =
      let ((filled', checked), e') =
        check_rest (sv.fills_enabled e && not rest_checked) order_id start_ms filled e in
      (ok (filled', is_open), e')

  module _ (order_id : String) (start_ms : ℤ) where
    -- One round of the loop up to its `select`, which is `next`; the flags of `next` are
    -- `restAttempted` and `restChecked`.
    abbrev pub after_rest :
        (F → Bool → Bool → Bool → E → Result (F × Bool) × E)
        → Bool
        → Bool
        → Bool
        → (F × Bool) × E
        → Result (F × Bool) × E
    after_rest next is_open attempted checked ((filled, now_checked), e) =
        if not is_open && lt nought filled
        then (ok (filled, false), e)
        else next filled is_open attempted (checked || now_checked) e

    abbrev pub after_open :
        (F → Bool → Bool → Bool → E → Result (F × Bool) × E)
        → Bool
        → Bool
        → F
        → Result Bool × E
        → Result (F × Bool) × E
    after_open next attempted checked filled (err x, e) = (err x, e)
    after_open next attempted checked filled (ok is_open, e) =
        let wanted = not is_open && sv.fills_enabled e && not attempted in
        after_rest next is_open (attempted || wanted) checked
          (check_rest wanted order_id start_ms filled e)

    abbrev pub after_fill :
        (F → Bool → Bool → Bool → E → Result (F × Bool) × E)
        → Bool
        → Bool
        → Result F × E
        → Result (F × Bool) × E
    after_fill next attempted checked (err x, e) = (err x, e)
    after_fill next attempted checked (ok filled, e) =
        after_open next attempted checked filled (order_is_open order_id e)

    -- `rounds` ticks wake the loop before it ends.
    unfoldable pub wait_loop : Bool → ℕ → Bool → Bool → E → Result (F × Bool) × E
    wait_loop cancelled zero attempted checked e =
        after_fill (λ filled is_open a c e'. at_end order_id start_ms cancelled filled is_open c e')
          attempted checked (fill_size_for_order order_id start_ms e)
    wait_loop cancelled (suc rounds) attempted checked e =
        after_fill (λ filled is_open a c e'. wait_loop cancelled rounds a c e') attempted checked
          (fill_size_for_order order_id start_ms e)

    abbrev pub timed_loop : (ℕ × Bool) × E → Result (F × Bool) × E
    timed_loop ((rounds, cancelled), e) = wait_loop cancelled rounds false false e

    unfoldable pub wait_for_order_fill : ℤ → ℤ → E → Result (F × Bool) × E
    unfolding wait_loop
    wait_for_order_fill timeout poll e =
        if str_eq order_id ""
        then (err order_id_required, e)
        else timed_loop (sv.start_timers timeout poll e)

  abbrev pub with_id : String → Result (F × Bool) × E → Result (String × F × Bool) × E
  with_id order_id (ok (filled, is_open), e) = (ok (order_id, filled, is_open), e)
  with_id order_id (err x, e) = (err x, e)

  abbrev pub after_place : StrategyConfig F → ℤ → Result String × E → Result (String × F × Bool) × E
  after_place cfg start_ms (err x, e) = (err x, e)
  after_place cfg start_ms (ok order_id, e) =
      with_id order_id
        (wait_for_order_fill order_id start_ms cfg.entry_timeout cfg.entry_poll_interval e)

  abbrev pub place_at : StrategyConfig F → Order F → ℤ × E → Result (String × F × Bool) × E
  place_at cfg order (now, e) =
      after_place cfg (unix_milli (now -ℤ seconds 2)) (sv.place_order order e)

  unfoldable pub place_and_wait : Order F → World F E → Result (String × F × Bool) × World F E
  place_and_wait order w =
      let (r, e) = place_at w.app.cfg.strategy order (sv.now w.env) in
      (r, record { app = w.app; env = e; calls = place order ∷ w.calls })

  -- A cancel that fails is logged only.
  unfoldable pub cancel_best_effort : ℤ → String → World F E → World F E
  cancel_best_effort asset_id order_id w =
      if str_eq order_id "" || eqb_ℤ asset_id (pos 0)
      then w
      else (let c : Cancel = record { asset = asset_id; order_id = order_id } in
          record { app = w.app; env = (sv.cancel_order c w.env).1; calls = cancel c ∷ w.calls })

  unfoldable pub cancel_if_open : Bool → ℤ → String → World F E → World F E
  unfolding cancel_best_effort
  cancel_if_open is_open asset_id order_id w =
      if is_open then cancel_best_effort asset_id order_id w else w

  abbrev pub after_rollback :
      ℤ → F → Result (String × F × Bool) × World F E → Result (Unit {0}) × World F E
  after_rollback asset_id size (err x, w) = (err x, w)
  after_rollback asset_id size (ok (order_id, filled, is_open), w) = (
    if lt (add filled (lit 1 9)) size then err rollback_short else ok tt,
    cancel_if_open is_open asset_id order_id w,
  )

  unfoldable pub rollback_spot_with : ℤ → F → F → Bool → World F E → Result (Unit {0}) × World F E
  rollback_spot_with asset_id size limit is_buy w =
      if le size nought
      then (ok tt, w)
      else after_rollback asset_id size
          (place_and_wait (rollback_order asset_id size limit is_buy) w)

  unfoldable pub rollback_spot : ℤ → F → F → World F E → Result (Unit {0}) × World F E
  rollback_spot asset_id size limit w = rollback_spot_with asset_id size limit false w
