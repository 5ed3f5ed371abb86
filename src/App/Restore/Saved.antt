-- ===== src/App/Restore/Saved.antt =====
-- A restart: what is restored from the snapshot that was saved.
use hyper_basis.Prelude.{◌≡◌, refl, ◌↔◌, ◌⊎◌, inl, inr, Bool, true, false, some, arith}
use hyper_basis.Prelude.Int.{ℤ}
use hyper_basis.Prelude.Float.{Float64}
use hyper_basis.Strategy.{State, MarketSnapshot}
use hyper_basis.App.{Services, App, AccountState}
use hyper_basis.App.Upkeep.{state_name, snapshot_of}
use hyper_basis.App.Restore.{
  parse_strategy_state, restored_flat, with_exposure, restore_strategy_state,
}

parse-state_name : (s : State) → parse_strategy_state (state_name s) ≡ s
unfolding parse_strategy_state
parse-state_name State.idle = refl
parse-state_name State.enter = refl
parse-state_name State.hedge_ok = refl
parse-state_name State.exit = refl

-- The state is kept, or moved to `HEDGE_OK` from `IDLE`, with exposure; it is `IDLE` without.
restored_state :
    (flat : Bool) (s : State)
    → ((with_exposure flat s ≡ State.idle) ↔ (flat ≡ true))
      × ((with_exposure flat s ≡ s)
          ⊎ (flat ≡ true)
          ⊎ ((s ≡ State.idle) × (with_exposure flat s ≡ State.hedge_ok)))
restored_state true s = ((λ h. refl, λ h. refl), inr (inl refl))
restored_state false State.idle = ((λ h. ground arith, λ h. ground arith), inr (inr (refl, refl)))
restored_state false State.enter = ((λ h. ground arith, λ h. ground arith), inl refl)
restored_state false State.hedge_ok = ((λ h. ground arith, λ h. ground arith), inl refl)
restored_state false State.exit = ((λ h. ground arith, λ h. ground arith), inl refl)

module _ {F E : Type 0} ⦃fl : Float64 F⦄ (sv : Services F E) where
  -- A bot saves a snapshot in a state, stops, and restores it with the account as it then is. It is
  -- `IDLE` exactly when the account has no exposure at the saved prices. With exposure it has the
  -- saved state, or `HEDGE_OK` if that was `IDLE`.
  pub restore-saved :
      (acc : AccountState F) (snap : MarketSnapshot F) (s : State) (now : ℤ) (e : E) (a : App F)
      → let saved = snapshot_of sv snap s now in
        let restored = (restore_strategy_state sv acc (some saved) e a).strategy.state in
        ((restored ≡ State.idle) ↔ (restored_flat sv acc saved a e ≡ true))
        × ((restored ≡ s)
            ⊎ (restored_flat sv acc saved a e ≡ true)
            ⊎ ((s ≡ State.idle) × (restored ≡ State.hedge_ok)))
  unfolding restore_strategy_state
  restore-saved acc snap s now e a =
      rw (parse-state_name s)
        (restored_state (restored_flat sv acc (snapshot_of sv snap s now) a e) s)
