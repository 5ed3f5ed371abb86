-- ===== src/App/Hedge/Switch.antt =====
-- What the connectivity kill switch of `checkConnectivity` can do.
use hyper_basis.Prelude.{
  suc, ◌+◌, ◌≡◌, refl, ◌∙◌, ap, inl, inr, true, false, ◌||◌, List, [], ◌∷◌, arith, str_eq,
  Bool-cases, subst, sym, if◌then◌else◌,
}
use hyper_basis.Prelude.Int.{ℤ, pos, eqb_ℤ}
use hyper_basis.Prelude.Float.{Float64}
use hyper_basis.Prelude.Result.{Err, Result, ok, err}
use hyper_basis.Config.{RiskConfig}
use hyper_basis.Strategy.{check_connectivity}
use hyper_basis.App.{Services, World, App, OpenOrder, Call, cancel, placed}
use hyper_basis.App.Frame.{Quiet, Quiet-refl, Quiet-trans}
use hyper_basis.App.Hedge.{
  asset_of, is_ref, cancel_ref, cancel_open_orders, engaged, restored, switched, watch_connectivity,
}

-- The kill switch is on exactly after one more engagement than restorations.
abbrev pub IsSwitchBalanced : {F : Type 0} → App F → Type 0
IsSwitchBalanced a =
    a.metrics.kill_switch_engaged
    ≡ a.metrics.kill_switch_restored + (if a.kill_switch_active then 1 else 0)

module _ {F E : Type 0} ⦃fl : Float64 F⦄ (sv : Services F E) where
  cancel_ref-Quiet : (o : OpenOrder) (w : World F E) → Quiet w (cancel_ref sv o w)
  cancel_ref-Quiet o w =
      elim (Bool-cases (str_eq o.order_id "" || eqb_ℤ (asset_of sv o w.env) (pos 0))) [
        | inl h ↦ rw h (Quiet-refl w)
        | inr h ↦ rw h record { same_app = refl; same_placed = refl }
      ]

  cancel_step-Quiet :
      (o : OpenOrder) (w : World F E) → Quiet w (if is_ref sv o then cancel_ref sv o w else w)
  cancel_step-Quiet o w = elim (Bool-cases (is_ref sv o)) [
    | inl h ↦ rw h (cancel_ref-Quiet o w)
    | inr h ↦ rw h (Quiet-refl w)
  ]

  pub cancel_open_orders-Quiet :
      (os : List OpenOrder) (w : World F E) → Quiet w (cancel_open_orders sv os w)
  unfolding cancel_open_orders
  cancel_open_orders-Quiet [] w = Quiet-refl w
  cancel_open_orders-Quiet (o ∷ os) w =
      let w' = if is_ref sv o then cancel_ref sv o w else w in
      Quiet-trans w w' (cancel_open_orders sv os w') (cancel_step-Quiet o w)
        (cancel_open_orders-Quiet os w')

  -- The calls to the exchange before and after open orders have been cancelled: each order is passed
  -- over if it has no id or its asset is not known, and otherwise its cancel is sent.
  pub data Cancelled : List OpenOrder → List (Call F) → List (Call F) → Type 0 where
    all_done : {calls : List (Call F)} → Cancelled [] calls calls
    no_id :
        {o : OpenOrder} {os : List OpenOrder} {before after : List (Call F)}
        → str_eq o.order_id "" ≡ true
        → Cancelled os before after
        → Cancelled (o ∷ os) before after
    no_asset :
        {o : OpenOrder} {os : List OpenOrder} {before after : List (Call F)} (e : E)
        → eqb_ℤ (asset_of sv o e) (pos 0) ≡ true
        → Cancelled os before after
        → Cancelled (o ∷ os) before after
    sent :
        {o : OpenOrder} {os : List OpenOrder} {before after : List (Call F)} (e : E)
        → str_eq o.order_id "" ≡ false
        → eqb_ℤ (asset_of sv o e) (pos 0) ≡ false
        → Cancelled os
            (cancel (record { asset = asset_of sv o e; order_id = o.order_id }) ∷ before)
            after
        → Cancelled (o ∷ os) before after

  pub Cancelled-placed :
      (os : List OpenOrder) {before after : List (Call F)}
      → Cancelled os before after
      → placed after ≡ placed before
  Cancelled-placed [] all_done = refl
  Cancelled-placed (o ∷ os) (no_id h c) = Cancelled-placed os c
  Cancelled-placed (o ∷ os) (no_asset e h c) = Cancelled-placed os c
  Cancelled-placed (o ∷ os) (sent e h k c) = Cancelled-placed os c

  cancel_step-nameless :
      (o : OpenOrder) (w : World F E)
      → str_eq o.order_id "" ≡ true
      → (if is_ref sv o then cancel_ref sv o w else w).calls ≡ w.calls
  cancel_step-nameless o w h = elim (Bool-cases (str_eq o.cloid "")) [
    | inl k ↦ rw (h, k) refl
    | inr k ↦ rw (h, k) refl
  ]

  cancel_step-unknown :
      (o : OpenOrder) (w : World F E)
      → str_eq o.order_id "" ≡ false
      → eqb_ℤ (asset_of sv o w.env) (pos 0) ≡ true
      → (if is_ref sv o then cancel_ref sv o w else w).calls ≡ w.calls
  cancel_step-unknown o w h k = rw (h, k) refl

  cancel_step-sent :
      (o : OpenOrder) (w : World F E)
      → str_eq o.order_id "" ≡ false
      → eqb_ℤ (asset_of sv o w.env) (pos 0) ≡ false
      → (if is_ref sv o then cancel_ref sv o w else w).calls
        ≡ cancel (record { asset = asset_of sv o w.env; order_id = o.order_id }) ∷ w.calls
  cancel_step-sent o w h k = rw (h, k) refl

  cancel_open_orders-Cancelled :
      (os : List OpenOrder) (w : World F E)
      → Cancelled os w.calls (cancel_open_orders sv os w).calls
  unfolding cancel_open_orders
  cancel_open_orders-Cancelled [] w = all_done
  cancel_open_orders-Cancelled (o ∷ os) w =
      let w' = if is_ref sv o then cancel_ref sv o w else w in
      let after = (cancel_open_orders sv os w').calls in
      let rest = cancel_open_orders-Cancelled os w' in
      let from = λ (calls : List (Call F)). Cancelled os calls after in
      elim (Bool-cases (str_eq o.order_id "")) [
        | inl nameless ↦ no_id nameless (subst from (cancel_step-nameless o w nameless) rest)
        | inr named ↦ elim (Bool-cases (eqb_ℤ (asset_of sv o w.env) (pos 0))) [
          | inl k ↦ no_asset w.env k (subst from (cancel_step-unknown o w named k) rest)
          | inr k ↦ sent w.env named k (subst from (cancel_step-sent o w named k) rest)
        ]
      ]

  -- An app in which the kill switch has been engaged: nothing else changes, and an engagement is counted
  -- if the switch was off.
  abbrev pub tripped : App F → App F
  tripped a = record a {
    kill_switch_active = true;
    metrics = record a.metrics {
      kill_switch_engaged =
          if a.kill_switch_active
          then a.metrics.kill_switch_engaged
          else suc a.metrics.kill_switch_engaged;
    };
  }

  engaged-tripped : (x : Err) (w : World F E) → (engaged sv x w).app ≡ tripped w.app
  engaged-tripped x w = elim (Bool-cases w.app.kill_switch_active) [
    | inl h ↦ rw h refl
    | inr h ↦ rw h refl
  ]

  engaged-calls : (x : Err) (w : World F E) → (engaged sv x w).calls ≡ w.calls
  engaged-calls x w = ground arith

  -- A check that fails trips the app and cancels the open orders.
  pub watch_connectivity-tripped :
      (risk : RiskConfig F) (os : List OpenOrder) (market_age account_age : ℤ) (w : World F E)
      (x : Err)
      → check_connectivity risk market_age account_age ≡ err x
      → let (r, w') = watch_connectivity sv risk os market_age account_age w in
        (r ≡ err x) × (w'.app ≡ tripped w.app) × Cancelled os w.calls w'.calls
  unfolding watch_connectivity
  watch_connectivity-tripped risk os market_age account_age w x h =
      let q = cancel_open_orders-Quiet os (engaged sv x w) in
      rw h (
        refl,
        q.same_app ∙ engaged-tripped x w,
        rw (engaged-calls x w) at (cancel_open_orders-Cancelled os (engaged sv x w)),
      )

  -- What `checkConnectivity` leaves alone.
  pub record Switched (w w' : World F E) : Type 0 where
    pub same_placed : placed w'.calls ≡ placed w.calls
    pub same_cfg : w'.app.cfg ≡ w.app.cfg
    pub same_override : w'.app.risk_override ≡ w.app.risk_override
    pub same_strategy : w'.app.strategy ≡ w.app.strategy

  restored-Switched :
      (w : World F E)
      → Switched w (restored sv w)
        × ((restored sv w).app.kill_switch_active ≡ false)
        × (IsSwitchBalanced w.app → IsSwitchBalanced (restored sv w).app)
  restored-Switched w = (
    record {
      same_placed = ground arith;
      same_cfg = ground arith;
      same_override = ground arith;
      same_strategy = ground arith;
    },
    ground arith,
    λ h. ground arith,
  )

  engaged-Switched :
      (x : Err) (w : World F E)
      → Switched w (engaged sv x w)
        × ((engaged sv x w).app.kill_switch_active ≡ true)
        × (IsSwitchBalanced w.app → IsSwitchBalanced (engaged sv x w).app)
  engaged-Switched x w = (
    record {
      same_placed = ground arith;
      same_cfg = ground arith;
      same_override = ground arith;
      same_strategy = ground arith;
    },
    ground arith,
    λ h. ground arith,
  )

  pub data SwitchOutcome (check : Result (Unit {0})) (w : World F E)
      : Result (Unit {0}) × World F E → Type 0 where
    on_line :
        {w' : World F E} {u : Unit {0}}
        → check ≡ ok u
        → w'.app.kill_switch_active ≡ false
        → w'.calls ≡ w.calls
        → Switched w w'
        → SwitchOutcome check w (ok u, w')
    cut_off :
        {w' : World F E} {x : Err}
        → check ≡ err x
        → w'.app.kill_switch_active ≡ true
        → Switched w w'
        → SwitchOutcome check w (err x, w')

  restored-calls : (w : World F E) → (restored sv w).calls ≡ w.calls
  restored-calls w = ground arith

  -- Through a step that leaves the app alone.
  Switched-Quiet : (u v w : World F E) → Switched u v → Quiet v w → Switched u w
  Switched-Quiet u v w p q = record {
    same_placed = q.same_placed ∙ p.same_placed;
    same_cfg = ap (λ (a : App F). a.cfg) q.same_app ∙ p.same_cfg;
    same_override = ap (λ (a : App F). a.risk_override) q.same_app ∙ p.same_override;
    same_strategy = ap (λ (a : App F). a.strategy) q.same_app ∙ p.same_strategy;
  }

  switched-Outcome :
      (os : List OpenOrder) (r : Result (Unit {0})) (w : World F E)
      → SwitchOutcome r w (switched sv os r w)
        × (IsSwitchBalanced w.app → IsSwitchBalanced (switched sv os r w).1.app)
  switched-Outcome os (ok u) w =
      let (s, flag, balanced) = restored-Switched w in
      (on_line refl flag (restored-calls w) s, balanced)
  switched-Outcome os (err x) w =
      let (s, flag, balanced) = engaged-Switched x w in
      let q = cancel_open_orders-Quiet os (engaged sv x w) in
      (
        cut_off refl (ap (λ (a : App F). a.kill_switch_active) q.same_app ∙ flag)
            (Switched-Quiet w (engaged sv x w) _ s q),
        λ h. subst IsSwitchBalanced (sym q.same_app) (balanced h),
      )

  -- `checkConnectivity` places no orders. It fails exactly with the error of `CheckConnectivity`, and
  -- then the kill switch is on; where it succeeds, the switch is off and nothing was sent to the
  -- exchange.
  pub watch_connectivity-SwitchOutcome :
      (risk : RiskConfig F) (os : List OpenOrder) (market_age account_age : ℤ) (w : World F E)
      → SwitchOutcome
          (check_connectivity risk market_age account_age)
          w
          (watch_connectivity sv risk os market_age account_age w)
  unfolding watch_connectivity
  watch_connectivity-SwitchOutcome risk os market_age account_age w =
      (switched-Outcome os (check_connectivity risk market_age account_age) w).0

  -- `checkConnectivity` keeps the counters in step with the kill switch: it was engaged once more
  -- than it was restored if it is on, and as often if it is off.
  pub watch_connectivity-IsSwitchBalanced :
      (risk : RiskConfig F) (os : List OpenOrder) (market_age account_age : ℤ) (w : World F E)
      → IsSwitchBalanced w.app
      → IsSwitchBalanced (watch_connectivity sv risk os market_age account_age w).1.app
  unfolding watch_connectivity
  watch_connectivity-IsSwitchBalanced risk os market_age account_age w =
      (switched-Outcome os (check_connectivity risk market_age account_age) w).1
