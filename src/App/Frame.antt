-- ===== src/App/Frame.antt =====
-- What the smaller steps of the bot leave alone: the orders that were placed and the app.
use hyper_basis.Prelude.{
  ◌≡◌, refl, ap, ◌∙◌, inl, inr, String, List, Bool, false, ◌&&◌, ◌∷◌, arith, Bool-cases,
}
use hyper_basis.Prelude.Int.{ℤ}
use hyper_basis.Prelude.Float.{Float64, nought}
use hyper_basis.Prelude.Result.{Err, Result, ok, err}
use hyper_basis.Prelude.Dict.{lookup}
use hyper_basis.Strategy.{State, Event, MarketSnapshot, next_state}
use hyper_basis.Exec.{Order}
use hyper_basis.App.{Services, World, App, AccountState, transfer, placed, reset_to_idle, set_env}
use hyper_basis.App.Fills.{
  place_and_wait, cancel_if_open, rollback_order, rollback_spot_with, after_rollback,
}
use hyper_basis.App.Upkeep.{
  persist_strategy_snapshot, ensure_entry_usdc, carry_out, with_balances, after_transfer,
  transfer_usdc, or_nought, perp_usdc,
}
use hyper_basis.App.Numbers.{UsdcTransferPlan, plan_usdc_transfer, flat_epsilon}

-- The second world has the app of the first, and no order was placed between them.
pub record Quiet {F E : Type 0} (w w' : World F E) : Type 0 where
  pub same_app : w'.app ≡ w.app
  pub same_placed : placed w'.calls ≡ placed w.calls

pub same_state :
    {F : Type 0} {a b : App F} {st : State} → a ≡ b → b.strategy.state ≡ st → a.strategy.state ≡ st
same_state {F} e h = ap (λ (x : App F). x.strategy.state) e ∙ h

module _ {F E : Type 0} where
  pub Quiet-refl : (w : World F E) → Quiet w w
  Quiet-refl w = record { same_app = refl; same_placed = refl }

  pub Quiet-trans : (u v w : World F E) → Quiet u v → Quiet v w → Quiet u w
  Quiet-trans u v w p q = record {
    same_app = q.same_app ∙ p.same_app;
    same_placed = q.same_placed ∙ p.same_placed;
  }

  -- Whatever the state was, `resetToIdle` leads to `IDLE`.
  pub reset_to_idle-idle : (w : World F E) → (reset_to_idle w).app.strategy.state ≡ State.idle
  unfolding reset_to_idle next_state
  reset_to_idle-idle w = back w.app.strategy.state
    where
      back : (s : State) → next_state (next_state s Event.exit) Event.done ≡ State.idle
      back State.idle = refl
      back State.enter = refl
      back State.hedge_ok = refl
      back State.exit = refl

  pub reset_to_idle-placed : (w : World F E) → placed (reset_to_idle w).calls ≡ placed w.calls
  unfolding reset_to_idle
  reset_to_idle-placed w = refl

module _ {F E : Type 0} ⦃fl : Float64 F⦄ (sv : Services F E) where
  open fl use {le}

  pub cancel_if_open-Quiet :
      (b : Bool) (asset : ℤ) (id : String) (w : World F E)
      → Quiet w (cancel_if_open sv b asset id w)
  unfolding cancel_if_open
  cancel_if_open-Quiet b asset id w = ground arith

  -- `placeAndWait` reports this fill of the order, which is placed after the orders `before`.
  abbrev pub Reports : List (Order F) → Order F → F → Type 0
  Reports before order size =
      (w : World F E) × (id : String) × (is_open : Bool) × (placed w.calls ≡ before)
      × ((place_and_wait sv order w).0 ≡ ok (id, size, is_open))

  -- A leg fails with this error: `placeAndWait` fails with it for the order, placed after the orders
  -- `before`, or reports a fill that is short, for which the error is `unfilled`.
  pub data LegFailed (before : List (Order F)) (order : Order F) (IsShort : F → Type 0)
      (unfilled : Err) : Err → Type 0 where
    leg_refused :
        {x : Err} (w : World F E)
        → placed w.calls ≡ before
        → (place_and_wait sv order w).0 ≡ err x
        → LegFailed before order IsShort unfilled x
    leg_short :
        {size : F}
        → Reports before order size
        → IsShort size
        → LegFailed before order IsShort unfilled unfilled

  pub persist-placed :
      (snap : MarketSnapshot F) (w : World F E)
      → (placed (persist_strategy_snapshot sv snap w).calls ≡ placed w.calls)
        × ((persist_strategy_snapshot sv snap w).app.strategy ≡ w.app.strategy)
        × ((persist_strategy_snapshot sv snap w).app.metrics ≡ w.app.metrics)
        × ((persist_strategy_snapshot sv snap w).app.cfg ≡ w.app.cfg)
  unfolding persist_strategy_snapshot
  persist-placed snap w = (refl, refl, refl, refl)

  pub place_and_wait-placed :
      (order : Order F) (w : World F E)
      → (placed (place_and_wait sv order w).1.calls ≡ order ∷ placed w.calls)
        × ((place_and_wait sv order w).1.app ≡ w.app)
  unfolding place_and_wait
  place_and_wait-placed order w = (refl, refl)

  after_rollback-Quiet :
      (asset : ℤ) (size : F) (r : Result (String × F × Bool)) (w : World F E)
      → Quiet w (after_rollback sv asset size (r, w)).1
  after_rollback-Quiet asset size (err x) w = Quiet-refl w
  after_rollback-Quiet asset size (ok (id, filled, is_open)) w =
      cancel_if_open-Quiet is_open asset id w

  -- A rollback of a size that is not refused places one order, whatever becomes of it.
  pub rollback-placed :
      (asset : ℤ) (size limit : F) (is_buy : Bool) (w : World F E)
      → le size nought ≡ false
      → let w' = (rollback_spot_with sv asset size limit is_buy w).1 in
        (placed w'.calls ≡ rollback_order asset size limit is_buy ∷ placed w.calls)
        × (w'.app ≡ w.app)
  unfolding rollback_spot_with
  rollback-placed asset size limit is_buy w h =
      let order = rollback_order asset size limit is_buy in
      let (p, a) = place_and_wait-placed order w in
      let p' = place_and_wait sv order w in
      let q = after_rollback-Quiet asset size p'.0 p'.1 in rw h (q.same_placed ∙ p, q.same_app ∙ a)

  transferred-Quiet :
      (amount : F) (to_perp : Bool) (w : World F E)
      → Quiet w (after_transfer sv (transfer_usdc sv amount to_perp w)).1
  transferred-Quiet amount to_perp w = go (sv.usd_class_transfer amount to_perp w.env)
    where
      go :
          (r : Result (Unit {0}) × E)
          → Quiet w
              (after_transfer sv (
                r.0,
                record { app = w.app; env = r.1; calls = transfer amount to_perp ∷ w.calls },
              )).1
      go (ok u, e) = record { same_app = refl; same_placed = refl }
      go (err x, e) = record { same_app = refl; same_placed = refl }

  carry_out-Quiet :
      (plan : Result (UsdcTransferPlan F)) (w : World F E) → Quiet w (carry_out sv plan w).1
  carry_out-Quiet (err x) w = Quiet-refl w
  carry_out-Quiet (ok plan) w = elim (Bool-cases (le plan.amount flat_epsilon)) [
    | inl h ↦ rw h (Quiet-refl w)
    | inr h ↦ rw h (transferred-Quiet plan.amount plan.to_perp w)
  ]

  with_balances-Quiet :
      (a b : F) (w : World F E) (r : Result (AccountState F) × E)
      → Quiet w (with_balances sv a b w r).1
  with_balances-Quiet a b w (err x, e) = record { same_app = refl; same_placed = refl }
  with_balances-Quiet a b w (ok st, e) =
      let q =
        carry_out-Quiet
          (plan_usdc_transfer (or_nought (lookup "USDC" st.spot_balances)) (perp_usdc sv st) a b)
          (set_env e w) in
      record { same_app = q.same_app; same_placed = q.same_placed }

  -- The USDC that an entry needs may be transferred between the wallets; no order is placed for it.
  pub ensure_entry_usdc-Quiet : (a b : F) (w : World F E) → Quiet w (ensure_entry_usdc sv a b w).1
  unfolding ensure_entry_usdc
  ensure_entry_usdc-Quiet a b w = elim (Bool-cases (le a nought && le b nought)) [
    | inl h ↦ rw h (Quiet-refl w)
    | inr h ↦ rw h (with_balances-Quiet a b w (sv.reconcile w.env))
  ]
