-- ===== src/App/Upkeep/Cooldown.antt =====
-- The cooldowns of the entry and of the hedge.
use hyper_basis.Prelude.{◌≡◌, ◌&&◌, arith}
use hyper_basis.Prelude.Int.{ℤ, pos, ltb_ℤ, ◌+ℤ◌}
use hyper_basis.App.{Services, App}
use hyper_basis.App.Upkeep.{
  entry_cooldown_active, start_entry_cooldown, hedge_cooldown_active, start_hedge_cooldown,
}

module _ {F E : Type 0} (sv : Services F E) where
  -- A cooldown that starts at `now` is active at just the times before `now` plus its length, and
  -- never where its length is not positive. To start the one leaves the other as it is.
  pub start_cooldown-active :
      (a : App F) (now later : ℤ)
      → let entry = a.cfg.strategy.entry_cooldown in
        let hedge = a.cfg.strategy.hedge_cooldown in
        let a₁ = start_entry_cooldown sv a now in
        let a₂ = start_hedge_cooldown sv a now in
        (entry_cooldown_active sv a₁ later ≡ (ltb_ℤ (pos 0) entry && ltb_ℤ later (now +ℤ entry)))
        × (hedge_cooldown_active sv a₂ later ≡ (ltb_ℤ (pos 0) hedge && ltb_ℤ later (now +ℤ hedge)))
        × (hedge_cooldown_active sv a₁ later ≡ hedge_cooldown_active sv a later)
        × (entry_cooldown_active sv a₂ later ≡ entry_cooldown_active sv a later)
  unfolding entry_cooldown_active start_entry_cooldown hedge_cooldown_active start_hedge_cooldown
  start_cooldown-active a now later = (ground arith, ground arith, ground arith, ground arith)
