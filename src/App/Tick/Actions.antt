-- ===== src/App/Tick/Actions.antt =====
-- When a tick places orders.
use hyper_basis.Prelude.{◌≡◌, refl, ◌∙◌, ap, inl, inr, true, false, ◌∷◌, Bool-cases, arith}
use hyper_basis.Prelude.Float.{Float64}
use hyper_basis.Prelude.Result.{Result}
use hyper_basis.Strategy.{State}
use hyper_basis.Exec.{Order}
use hyper_basis.App.{Services, World, placed, set_env}
use hyper_basis.App.Entry.{enter_position}
use hyper_basis.App.Exit.{exit_position}
use hyper_basis.App.Regime.{should_defer_exit_for_funding}
use hyper_basis.App.Hedge.{hedge_order, rebalance_delta}
use hyper_basis.App.Hedge.Outcome.{HedgeOutcome, no_order, hedged, rebalance_delta-HedgeOutcome}
use hyper_basis.App.Receipts.{maybe_log_funding_receipt}
use hyper_basis.App.Tick.{
  View, enter_signal, exit_signal, act_idle, keep_hedged, exit_or_defer, act_hedge_ok, act,
}
use hyper_basis.App.Tick.Frame.{maybe_log-Same}

module _ {F E : Type 0} ⦃fl : Float64 F⦄ (sv : Services F E) where
  open fl use {abs, le}

  -- The orders that are placed in a state, from a world `w`.
  pub data Acts (v : View F) (w : World F E) : State → World F E → Type 0 where
    quiet : {s : State} {w' : World F E} → placed w'.calls ≡ placed w.calls → Acts v w s w'
    enters :
        {w' : World F E}
        → v.paused ≡ false
        → v.regime.ok_confirmed ≡ true
        → le v.snap.volatility w.app.cfg.strategy.max_volatility ≡ true
        → v.entry_cooldown ≡ false
        → w' ≡ (enter_position sv v.snap w).1
        → Acts v w State.idle w'
    exits :
        {w' : World F E}
        → v.paused ≡ false
        → w.app.cfg.strategy.exit_on_funding_dip ≡ true
        → v.regime.bad_confirmed ≡ true
        → should_defer_exit_for_funding w.app.cfg.strategy
            (sv.now w.env).0
            v.forecast
            v.snap.funding_rate
          ≡ false
        → w' ≡ (exit_position sv v.snap (set_env (sv.now w.env).1 w)).1
        → Acts v w State.hedge_ok w'
    balances :
        {w' : World F E} (order : Order F)
        → v.paused ≡ false
        → v.hedge_cooldown ≡ false
        → placed w'.calls ≡ order ∷ placed w.calls
        → Acts v w State.hedge_ok w'

  act_idle-Acts : (v : View F) (w : World F E) → Acts v w State.idle (act_idle sv v w).1
  unfolding act_idle
  act_idle-Acts v w = elim (Bool-cases v.paused) [
    | inl h ↦ simp h (quiet refl)
    | inr p ↦ elim (Bool-cases (enter_signal sv v w)) [
      | inr h ↦ simp (p, h) (quiet refl)
      | inl signal ↦ elim (Bool-cases v.entry_cooldown) [
        | inl h ↦ simp (p, signal, h) (quiet refl)
        | inr cool ↦
            simp (p, signal, cool)
              (enters p (ground (arith, signal)) (ground (arith, signal)) cool refl)
      ]
    ]
  ]

  balanced-Acts :
      (v : View F) (w w1 : World F E) (r : Result (Unit {0}) × World F E)
      → v.paused ≡ false
      → v.hedge_cooldown ≡ false
      → placed w1.calls ≡ placed w.calls
      → HedgeOutcome sv v.snap w1 r
      → Acts v w State.hedge_ok r.1
  balanced-Acts v w w1 r p cool e (no_order q) = quiet (q ∙ e)
  balanced-Acts v w w1 r p cool e (hedged perp cloid _ _ _ _ _ _ q) =
      let order = hedge_order w1.app.cfg.strategy v.snap perp cloid in
      balances order p cool (q ∙ ap (◌∷◌ order) e)

  keep_hedged-Acts :
      (v : View F) (w w0 : World F E)
      → v.paused ≡ false
      → placed w0.calls ≡ placed w.calls
      → Acts v w State.hedge_ok (keep_hedged sv v w0).1
  keep_hedged-Acts v w w0 p e =
      let w1 = maybe_log_funding_receipt sv v.now v.snap v.forecast w0 in
      let s = maybe_log-Same sv v.now v.snap v.forecast w0 in
      elim (Bool-cases v.hedge_cooldown) [
        | inl h ↦ simp h (quiet (s.same_placed ∙ e))
        | inr cool ↦ simp cool (
            balanced-Acts v w w1 (rebalance_delta sv v.snap w1) p cool (s.same_placed ∙ e)
              (rebalance_delta-HedgeOutcome sv v.snap w1))
      ]

  exit_or_defer-Acts :
      (v : View F) (w : World F E)
      → v.paused ≡ false
      → exit_signal sv v w ≡ true
      → Acts v w State.hedge_ok (exit_or_defer sv v (sv.now w.env) w).1
  exit_or_defer-Acts v w p signal =
      let (now, e) = sv.now w.env in
      elim (Bool-cases
        (should_defer_exit_for_funding w.app.cfg.strategy now v.forecast v.snap.funding_rate)) [
          | inl h ↦ simp h (keep_hedged-Acts v w (set_env e w) p refl)
          | inr h ↦ simp h (exits p (ground (arith, signal)) (ground (arith, signal)) h refl)
        ]

  act_hedge_ok-Acts : (v : View F) (w : World F E) → Acts v w State.hedge_ok (act_hedge_ok sv v w).1
  unfolding act_hedge_ok
  act_hedge_ok-Acts v w = elim (Bool-cases v.paused) [
    | inl h ↦ simp h (quiet refl)
    | inr p ↦ elim (Bool-cases (exit_signal sv v w)) [
      | inl signal ↦ simp (p, signal) (exit_or_defer-Acts v w p signal)
      | inr h ↦ simp (p, h) (keep_hedged-Acts v w w p refl)
    ]
  ]

  pub act-Acts : (v : View F) (s : State) (w : World F E) → Acts v w s (act sv v s w).1
  unfolding act
  act-Acts v State.idle w = act_idle-Acts v w
  act-Acts v State.enter w = quiet refl
  act-Acts v State.hedge_ok w = act_hedge_ok-Acts v w
  act-Acts v State.exit w = quiet refl
