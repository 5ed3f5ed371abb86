-- ===== src/App/Tick/Frame.antt =====
-- What a tick does to the state of the machine before it acts, and what it leaves alone.
use hyper_basis.Prelude.{
  String, ◌≡◌, ◌⊎◌, refl, inl, inr, Bool, true, false, not, ◌&&◌, List, Option, none, some, arith,
  Bool-cases, if◌then◌else◌, ◌∙◌,
}
use hyper_basis.Prelude.Int.{ℤ, unix_milli}
use hyper_basis.Prelude.Float.{Float64}
use hyper_basis.Prelude.Result.{Result, ok, err}
use hyper_basis.Strategy.{State, Event, MarketSnapshot, next_state}
use hyper_basis.App.{
  Services, World, FundingForecast, FundingPayment, SpotContext, placed, apply_event, reset_to_idle,
  set_app,
}
use hyper_basis.App.Numbers.{flat_epsilon}
use hyper_basis.App.Entry.Ends.{state_of}
use hyper_basis.App.Regime.{update_funding_regime, count_regime}
use hyper_basis.App.Receipts.{
  with_receipts, is_receipt_due, maybe_log_funding_receipt, refresh_funding_forecast, with_forecast,
  ask_receipts, receipts_from,
}
use hyper_basis.App.Tick.{View, no_orders, settle_orders, settle_hedge, settle, view_at}

-- The orders, the settings and the pause of the second world are those of the first.
pub record Same {F E : Type 0} (w w' : World F E) : Type 0 where
  pub same_placed : placed w'.calls ≡ placed w.calls
  pub same_cfg : w'.app.cfg ≡ w.app.cfg
  pub same_override : w'.app.risk_override ≡ w.app.risk_override
  pub same_paused : w'.app.paused ≡ w.app.paused

module _ {F E : Type 0} where
  pub Same-trans : (u v w : World F E) → Same u v → Same v w → Same u w
  Same-trans u v w p q = record {
    same_placed = q.same_placed ∙ p.same_placed;
    same_cfg = q.same_cfg ∙ p.same_cfg;
    same_override = q.same_override ∙ p.same_override;
    same_paused = q.same_paused ∙ p.same_paused;
  }

  pub Same-refl : (w : World F E) → Same w w
  Same-refl w = record {
    same_placed = refl;
    same_cfg = refl;
    same_override = refl;
    same_paused = refl;
  }

  apply_event-Same : (event : Event) (w : World F E) → Same w (apply_event event w)
  unfolding apply_event
  apply_event-Same event w = record {
    same_placed = refl;
    same_cfg = refl;
    same_override = refl;
    same_paused = refl;
  }

  reset_to_idle-Same : (w : World F E) → Same w (reset_to_idle w)
  unfolding reset_to_idle
  reset_to_idle-Same w =
      Same-trans w (apply_event Event.exit w) _ (apply_event-Same Event.exit w)
        (apply_event-Same Event.done (apply_event Event.exit w))

module _ {F E : Type 0} ⦃fl : Float64 F⦄ (sv : Services F E) where
  open fl use {le, abs}

  with_receipts-Same :
      (asset : String) (r : Result (List FundingPayment) × E) (w : World F E)
      → Same w (with_receipts sv asset r w)
  with_receipts-Same asset (ok entries, e) w = record {
    same_placed = refl;
    same_cfg = refl;
    same_override = refl;
    same_paused = refl;
  }
  with_receipts-Same asset (err x, e) w = record {
    same_placed = refl;
    same_cfg = refl;
    same_override = refl;
    same_paused = refl;
  }

  ask_receipts-Same :
      (now : ℤ) (snap : MarketSnapshot F) (forecast : FundingForecast F) (w : World F E)
      → Same w (ask_receipts sv now snap forecast w)
  ask_receipts-Same now snap forecast w =
      let w' = set_app (record w.app { last_funding_receipt_check = now }) w in
      let from = unix_milli (receipts_from now forecast w'.app) in
      let s = with_receipts-Same snap.perp_asset (sv.user_funding from w.env) w' in
      record {
        same_placed = s.same_placed;
        same_cfg = s.same_cfg;
        same_override = s.same_override;
        same_paused = s.same_paused;
      }

  pub maybe_log-Same :
      (now : ℤ) (snap : MarketSnapshot F) (o : Option (FundingForecast F)) (w : World F E)
      → Same w (maybe_log_funding_receipt sv now snap o w)
  unfolding maybe_log_funding_receipt
  maybe_log-Same now snap none w = Same-refl w
  maybe_log-Same now snap (some forecast) w =
      elim (Bool-cases (le (abs snap.perp_position) flat_epsilon)) [
        | inl h ↦ rw h (Same-refl w)
        | inr h ↦ elim (Bool-cases (is_receipt_due now forecast w.app)) [
          | inl k ↦ rw (h, k) (ask_receipts-Same now snap forecast w)
          | inr k ↦ rw (h, k) (Same-refl w)
        ]
      ]

  with_forecast-Same : (r : Result Bool × E) (w : World F E) → Same w (with_forecast sv r w)
  with_forecast-Same (err x, e) w = record {
    same_placed = refl;
    same_cfg = refl;
    same_override = refl;
    same_paused = refl;
  }
  with_forecast-Same (ok true, e) w = record {
    same_placed = refl;
    same_cfg = refl;
    same_override = refl;
    same_paused = refl;
  }
  with_forecast-Same (ok false, e) w = record {
    same_placed = refl;
    same_cfg = refl;
    same_override = refl;
    same_paused = refl;
  }

  pub refresh_funding_forecast-Same : (w : World F E) → Same w (refresh_funding_forecast sv w)
  unfolding refresh_funding_forecast
  refresh_funding_forecast-Same w = with_forecast-Same (sv.refresh_funding_forecast w.env) w

  pub view_at-Same :
      (mid : F) (c : SpotContext) (w : World F E)
      → Same w (view_at sv mid c w).1 × ((view_at sv mid c w).0.paused ≡ w.app.paused)
  unfolding view_at update_funding_regime count_regime
  view_at-Same mid c w = (
    record {
      same_placed = refl;
      same_cfg = ground arith;
      same_override = ground arith;
      same_paused = ground arith;
    },
    refl,
  )

  -- With no open orders an entry or an exit is over.
  abbrev over : View F → World F E → World F E
  over v w =
      if no_orders sv v
      then (if v.flat then reset_to_idle w else apply_event Event.hedge_ok w)
      else w

  over-Same : (v : View F) (w : World F E) → Same w (over v w)
  over-Same v w = elim (Bool-cases (no_orders sv v)) [
    | inr h ↦ rw h (Same-refl w)
    | inl h ↦ elim (Bool-cases v.flat) [
      | inl k ↦ rw (h, k) (reset_to_idle-Same w)
      | inr k ↦ rw (h, k) (apply_event-Same Event.hedge_ok w)
    ]
  ]

  settle_orders-Same : (v : View F) (s : State) (w : World F E) → Same w (settle_orders sv v s w)
  settle_orders-Same v State.idle w = Same-refl w
  settle_orders-Same v State.enter w = over-Same v w
  settle_orders-Same v State.hedge_ok w = Same-refl w
  settle_orders-Same v State.exit w = over-Same v w

  settle_hedge-Same : (v : View F) (s : State) (w : World F E) → Same w (settle_hedge sv v s w)
  settle_hedge-Same v State.idle w = Same-refl w
  settle_hedge-Same v State.enter w = Same-refl w
  settle_hedge-Same v State.hedge_ok w = elim (Bool-cases (v.flat && not v.entry_cooldown)) [
    | inl h ↦ rw h (reset_to_idle-Same w)
    | inr h ↦ rw h (Same-refl w)
  ]
  settle_hedge-Same v State.exit w = Same-refl w

  pub settle-Same : (v : View F) (w : World F E) → Same w (settle sv v w)
  unfolding settle
  settle-Same v w =
      let w' = settle_orders sv v w.app.strategy.state w in
      Same-trans w w' _ (settle_orders-Same v w.app.strategy.state w)
        (settle_hedge-Same v w'.app.strategy.state w')

  settle_orders-calls :
      (v : View F) (s : State) (w : World F E) → (settle_orders sv v s w).calls ≡ w.calls
  unfolding reset_to_idle apply_event
  settle_orders-calls v State.idle w = refl
  settle_orders-calls v State.enter w = ground arith
  settle_orders-calls v State.hedge_ok w = refl
  settle_orders-calls v State.exit w = ground arith

  settle_hedge-calls :
      (v : View F) (s : State) (w : World F E) → (settle_hedge sv v s w).calls ≡ w.calls
  unfolding reset_to_idle apply_event
  settle_hedge-calls v State.idle w = refl
  settle_hedge-calls v State.enter w = refl
  settle_hedge-calls v State.hedge_ok w = ground arith
  settle_hedge-calls v State.exit w = refl

  -- To settle sends nothing to the exchange.
  pub settle-calls : (v : View F) (w : World F E) → (settle sv v w).calls ≡ w.calls
  unfolding settle
  settle-calls v w =
      let w' = settle_orders sv v w.app.strategy.state w in
      settle_hedge-calls v w'.app.strategy.state w' ∙ settle_orders-calls v w.app.strategy.state w

  -- `ENTER` and `EXIT` only with open orders, and `HEDGE_OK` only with exposure or in a cooldown.
  pub record IsSettled (v : View F) (s : State) : Type 0 where
    pub enter_open : s ≡ State.enter → no_orders sv v ≡ false
    pub exit_open : s ≡ State.exit → no_orders sv v ≡ false
    pub hedge_exposed : s ≡ State.hedge_ok → (v.flat && not v.entry_cooldown) ≡ false

  settle_again : (v : View F) (w : World F E) → IsSettled v (state_of w) → settle sv v w ≡ w
  unfolding settle reset_to_idle apply_event next_state
  settle_again v w i = ground (arith, i.enter_open, i.exit_open, i.hedge_exposed)

  settled : (v : View F) (w : World F E) → IsSettled v (state_of (settle sv v w))
  unfolding settle reset_to_idle apply_event next_state
  settled v w = record {
    enter_open = λ h. ground arith;
    exit_open = λ h. ground arith;
    hedge_exposed = λ h. ground arith;
  }

  -- How the state may change: to `IDLE` only without exposure, to `HEDGE_OK` only with it.
  pub record IsMove (v : View F) (s s' : State) : Type 0 where
    pub idle_flat : s' ≡ State.idle → (s ≡ State.idle) ⊎ (v.flat ≡ true)
    pub hedge_not_flat : s' ≡ State.hedge_ok → (s ≡ State.hedge_ok) ⊎ (v.flat ≡ false)

  settled-IsMove : (v : View F) (w : World F E) → IsMove v (state_of w) (state_of (settle sv v w))
  unfolding settle reset_to_idle apply_event next_state
  settled-IsMove v w = record {
    idle_flat = λ h. elim (Bool-cases v.flat) [ inl k ↦ inr k | inr k ↦ inl (ground arith) ];
    hedge_not_flat = λ h. elim (Bool-cases v.flat) [ inl k ↦ inl (ground arith) | inr k ↦ inr k ];
  }

  -- Before a tick acts, the state is `ENTER` or `EXIT` only with open orders, and `HEDGE_OK` only
  -- with exposure or in the cooldown of an entry. It has become `IDLE` only without exposure, and
  -- `HEDGE_OK` only with it. To settle the state again changes nothing.
  pub settle-IsSettled :
      (v : View F) (w : World F E)
      → IsSettled v (state_of (settle sv v w))
        × IsMove v (state_of w) (state_of (settle sv v w))
        × (settle sv v (settle sv v w) ≡ settle sv v w)
  settle-IsSettled v w =
      (settled v w, settled-IsMove v w, settle_again v (settle sv v w) (settled v w))
