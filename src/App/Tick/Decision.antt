-- ===== src/App/Tick/Decision.antt =====
-- What a decision does, and with it a tick.
use hyper_basis.Prelude.{◌≡◌, refl, ◌∙◌, ap, subst, sym, inl, inr, true, false, arith, Bool-cases}
use hyper_basis.Prelude.Int.{pos, ltb_ℤ}
use hyper_basis.Prelude.Float.{Float64}
use hyper_basis.Prelude.Result.{Err, Result, ok, err}
use hyper_basis.Strategy.{State, StateMachine, check_risk, check_connectivity}
use hyper_basis.App.{Services, World, App, SpotContext, placed, set_env}
use hyper_basis.App.Entry.Ends.{state_of}
use hyper_basis.App.Upkeep.{persist_strategy_snapshot}
use hyper_basis.App.Hedge.{watch_connectivity}
use hyper_basis.App.Hedge.Switch.{
  SwitchOutcome, on_line, cut_off, watch_connectivity-SwitchOutcome, tripped, Cancelled,
  Cancelled-placed, watch_connectivity-tripped,
}
use hyper_basis.App.Receipts.{refresh_funding_forecast, spot_mid}
use hyper_basis.App.Tick.{
  View, risk_config, settle, act, idle_not_ready, after_risk, after_connectivity, decide, view_at,
  tick_with, tick,
}
use hyper_basis.App.Tick.Frame.{
  refresh_funding_forecast-Same, view_at-Same, settle-Same, settle-calls,
}
use hyper_basis.App.Tick.Actions.{Acts, quiet, enters, exits, balances, act-Acts}

module _ {F E : Type 0} ⦃fl : Float64 F⦄ (sv : Services F E) where
  -- What a decision on a view does, from a world `w`.
  pub data DecideOutcome (v : View F) (w : World F E) : World F E → Type 0 where
    nothing : {w' : World F E} → placed w'.calls ≡ placed w.calls → DecideOutcome v w w'
    acted :
        {w' : World F E} (w1 : World F E)
        → placed w1.calls ≡ placed w.calls
        → w1.app.cfg ≡ w.app.cfg
        → check_connectivity (risk_config w.app) v.market_age v.account_age ≡ ok tt
        → check_risk (risk_config w.app) v.snap ≡ ok tt
        → (state_of (settle sv v w) ≡ State.idle
            → (v.flat ≡ true) × (ltb_ℤ (pos 0) v.snap.open_order_count ≡ false))
        → Acts sv v w1 (state_of (settle sv v w)) w'
        → DecideOutcome v w w'

  risk_config-same :
      (a b : App F)
      → a.cfg ≡ b.cfg
      → a.risk_override ≡ b.risk_override
      → risk_config a ≡ risk_config b
  risk_config-same a b p q = rw (p, q) refl

  -- The second world is the first, settled and switched.
  record Ready (v : View F) (w w1 : World F E) : Type 0 where
    ready_placed : placed w1.calls ≡ placed w.calls
    ready_cfg : w1.app.cfg ≡ w.app.cfg
    ready_risk : risk_config w1.app ≡ risk_config w.app
    ready_state : state_of w1 ≡ state_of (settle sv v w)
    ready_connectivity : check_connectivity (risk_config w.app) v.market_age v.account_age ≡ ok tt

  idle_ready :
      (v : View F) (s : State)
      → s ≡ State.idle
      → idle_not_ready sv v s ≡ false
      → (v.flat ≡ true) × (ltb_ℤ (pos 0) v.snap.open_order_count ≡ false)
  idle_ready v s e h =
      let open_flat = subst (λ t. idle_not_ready sv v t ≡ false) e h in
      (ground (arith, open_flat), ground (arith, open_flat))

  after_risk-Outcome :
      (v : View F) (w w1 : World F E) (r : Result (Unit {0}))
      → Ready v w w1
      → check_risk (risk_config w.app) v.snap ≡ r
      → idle_not_ready sv v (state_of (settle sv v w)) ≡ false
      → DecideOutcome v w (after_risk sv v r w1).1
  after_risk-Outcome v w w1 (err x) ready risk ready_idle = nothing ready.ready_placed
  after_risk-Outcome v w w1 (ok u) ready risk ready_idle =
      acted w1 ready.ready_placed ready.ready_cfg ready.ready_connectivity risk
        (λ idle. idle_ready v (state_of (settle sv v w)) idle ready_idle)
        (subst (λ s. Acts sv v w1 s (act sv v (state_of w1) w1).1) ready.ready_state
          (act-Acts sv v (state_of w1) w1))

  fresh-Outcome :
      (v : View F) (w w1 : World F E)
      → Ready v w w1
      → DecideOutcome v w (after_connectivity sv v (ok tt, w1)).1
  fresh-Outcome v w w1 ready = elim (Bool-cases (idle_not_ready sv v (state_of w1))) [
    | inl h ↦ simp h (nothing ready.ready_placed)
    | inr h ↦ simp h (
        after_risk-Outcome v w w1 (check_risk (risk_config w1.app) v.snap) ready
          (rw ready.ready_risk refl) (rw⁻¹ ready.ready_state h))
  ]

  after_connectivity-Outcome :
      (v : View F) (w : World F E) (r : Result (Unit {0}) × World F E)
      → SwitchOutcome sv
          (check_connectivity (risk_config (settle sv v w).app) v.market_age v.account_age)
          (settle sv v w)
          r
      → DecideOutcome v w (after_connectivity sv v r).1
  after_connectivity-Outcome v w (ok u, w1) (on_line e flag calls s) =
      let t = settle-Same sv v w in
      let same_risk = risk_config-same (settle sv v w).app w.app t.same_cfg t.same_override in
      fresh-Outcome v w w1 record {
        ready_placed = s.same_placed ∙ t.same_placed;
        ready_cfg = s.same_cfg ∙ t.same_cfg;
        ready_risk =
            risk_config-same w1.app (settle sv v w).app s.same_cfg s.same_override ∙ same_risk;
        ready_state = ap (λ (x : StateMachine). x.state) s.same_strategy;
        ready_connectivity = rw⁻¹ same_risk e;
      }
  after_connectivity-Outcome v w (err x, w1) (cut_off e flag s) =
      nothing (s.same_placed ∙ (settle-Same sv v w).same_placed)

  -- A decision places orders only when the data is fresh, the snapshot is within the risk limits and
  -- the bot is not paused. From `IDLE`, as the open orders have left it, it then runs an entry, and
  -- only if the bot was flat without open orders, the funding regime was confirmed, the volatility was
  -- allowed and no cooldown ran. From `HEDGE_OK` it runs an exit, on a confirmed dip of the funding
  -- that no payment defers, or places at most one hedge order, outside its cooldown.
  pub decide-DecideOutcome : (v : View F) (w : World F E) → DecideOutcome v w (decide sv v w).1
  unfolding decide
  decide-DecideOutcome v w =
      let w' = settle sv v w in
      after_connectivity-Outcome v w
        (watch_connectivity sv (risk_config w'.app) v.orders v.market_age v.account_age w')
        (watch_connectivity-SwitchOutcome sv (risk_config w'.app) v.orders v.market_age
          v.account_age w')

  -- What a decision does when `checkConnectivity` has failed: nothing more.
  after_connectivity-err :
      (v : View F) (r : Result (Unit {0}) × World F E) (x : Err)
      → r.0 ≡ err x
      → (after_connectivity sv v r).1 ≡ r.1
  after_connectivity-err v (ok u, w1) x e = absurd (cc e)
  after_connectivity-err v (err y, w1) x e = refl

  -- On stale data a decision settles the state, engages the kill switch, which is counted if it was off,
  -- and cancels the open orders that have an id and a known asset. Nothing else of the bot changes, and
  -- nothing but these cancels is sent to the exchange: no order is placed.
  pub decide-cut_off :
      (v : View F) (w : World F E) (x : Err)
      → check_connectivity (risk_config w.app) v.market_age v.account_age ≡ err x
      → let w' = (decide sv v w).1 in
        (w'.app ≡ tripped sv (settle sv v w).app)
        × Cancelled sv v.orders w.calls w'.calls
        × (placed w'.calls ≡ placed w.calls)
  unfolding decide
  decide-cut_off v w x e =
      let w1 = settle sv v w in
      let t = settle-Same sv v w in
      let same_risk = risk_config-same w1.app w.app t.same_cfg t.same_override in
      let r = watch_connectivity sv (risk_config w1.app) v.orders v.market_age v.account_age w1 in
      let (failed, app, calls) =
        watch_connectivity-tripped sv (risk_config w1.app) v.orders v.market_age v.account_age w1 x
          (rw same_risk e) in
      let last = after_connectivity-err v r x failed in
      let sent =
        subst (λ before. Cancelled sv v.orders before r.1.calls) (settle-calls sv v w) calls in
      (
        ap (λ (u : World F E). u.app) last ∙ app,
        subst (λ (u : World F E). Cancelled sv v.orders w.calls u.calls) (sym last) sent,
        ap (λ (u : World F E). placed u.calls) last ∙ Cancelled-placed sv v.orders sent,
      )

  not_paused :
      (v : View F) (w w' : World F E) (s : State)
      → v.paused ≡ true
      → Acts sv v w s w'
      → placed w'.calls ≡ placed w.calls
  not_paused v w w' s h (quiet q) = q
  not_paused v w w' State.idle h (enters p _ _ _ _) = ground arith
  not_paused v w w' State.hedge_ok h (exits p _ _ _ _) = ground arith
  not_paused v w w' State.hedge_ok h (balances order p _ _) = ground arith

  decide_paused :
      (v : View F) (w w' : World F E)
      → v.paused ≡ true
      → DecideOutcome v w w'
      → placed w'.calls ≡ placed w.calls
  decide_paused v w w' h (nothing q) = q
  decide_paused v w w' h (acted w1 q _ _ _ _ a) =
      not_paused v w1 w' (state_of (settle sv v w)) h a ∙ q

  tick_with_paused :
      (r : Result (F × SpotContext) × E) (w : World F E)
      → w.app.paused ≡ true
      → placed (tick_with sv r w).1.calls ≡ placed w.calls
  unfolding persist_strategy_snapshot decide
  tick_with_paused (err x, e) w h = refl
  tick_with_paused (ok (mid, c), e) w h =
      let seen = view_at sv mid c (set_env e w) in
      let (s, p) = view_at-Same sv mid c (set_env e w) in
      decide_paused seen.0 seen.1 (decide sv seen.0 seen.1).1 (p ∙ h)
        (decide-DecideOutcome seen.0 seen.1)
      ∙ s.same_placed

  -- A tick of a paused bot places no orders.
  pub tick_paused :
      (w : World F E) → w.app.paused ≡ true → placed (tick sv w).1.calls ≡ placed w.calls
  unfolding tick
  tick_paused w h =
      let fresh = set_env (sv.refresh_contexts w.env) w in
      let s = refresh_funding_forecast-Same sv fresh in
      let w' = refresh_funding_forecast sv fresh in
      tick_with_paused (spot_mid sv w'.app.cfg.strategy.spot_asset w'.env) w' (s.same_paused ∙ h)
      ∙ s.same_placed
