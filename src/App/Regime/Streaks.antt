-- ===== src/App/Regime/Streaks.antt =====
-- The counters of the funding regime are the lengths of the latest runs of good and bad readings.
use hyper_basis.Prelude.{
  ℕ, suc, ◌+◌, ◌^◌, ◌<◌, ◌≤◌, ◌≡◌, refl, Bool, true, false, List, [], ◌∷◌, arith, length,
}
use hyper_basis.Prelude.Int.{pos, leb_ℤ, ◌+ℤ◌, wrap_small}
use hyper_basis.Prelude.Float.{Float64}
use hyper_basis.App.{App}
use hyper_basis.App.Regime.{at_least_one, regime_ok, count_regime, update_funding_regime}

-- The readings are kept with the newest first: how many of the latest agree with `b`.
abbrev pub streak : Bool → List Bool → ℕ
streak b [] = 0
streak true (true ∷ xs) = suc (streak true xs)
streak false (false ∷ xs) = suc (streak false xs)
streak b (x ∷ xs) = 0

streak-le : (b : Bool) (xs : List Bool) → streak b xs ≤ length xs
streak-le b [] = omega arith
streak-le true (true ∷ xs) = omega (arith, streak-le true xs)
streak-le true (false ∷ xs) = omega arith
streak-le false (true ∷ xs) = omega arith
streak-le false (false ∷ xs) = omega (arith, streak-le false xs)

add_one : (n : ℕ) → pos n +ℤ pos 1 ≡ pos (suc n)
unfolding ◌+ℤ◌
add_one n = ground arith

-- A reading: the funding rate and the net carry.
abbrev pub Reading : Type 0 → Type 0
Reading F = F × F

module _ {F : Type 0} ⦃fl : Float64 F⦄ where
  abbrev pub is_good : F → F → Reading F → Bool
  is_good min_rate buffer (funding, net) = regime_ok funding min_rate net buffer

  abbrev pub goods : F → F → List (Reading F) → List Bool
  goods min_rate buffer [] = []
  goods min_rate buffer (r ∷ rs) = is_good min_rate buffer r ∷ goods min_rate buffer rs

  -- The bot after the readings.
  unfoldable pub observe : F → F → List (Reading F) → App F → App F
  observe min_rate buffer [] a = a
  observe min_rate buffer ((funding, net) ∷ rs) a =
      (update_funding_regime funding min_rate net buffer (observe min_rate buffer rs a)).1

  record Counted (xs : List Bool) (a a' : App F) : Type 0 where
    oks : a'.funding_ok_count ≡ pos (streak true xs)
    bads : a'.funding_bad_count ≡ pos (streak false xs)
    same_cfg : a'.cfg ≡ a.cfg

  count_regime-Counted :
      (b : Bool) (xs : List Bool) (a a' : App F)
      → length xs + 1 < 2 ^ 63
      → Counted xs a a'
      → Counted (b ∷ xs) a (count_regime b a')
  unfolding count_regime
  count_regime-Counted true xs a a' h c = record {
    oks =
        rw (c.oks, add_one (streak true xs))
          (wrap_small (suc (streak true xs)) (omega (arith, streak-le true xs)));
    bads = refl;
    same_cfg = c.same_cfg;
  }
  count_regime-Counted false xs a a' h c = record {
    oks = refl;
    bads =
        rw (c.bads, add_one (streak false xs))
          (wrap_small (suc (streak false xs)) (omega (arith, streak-le false xs)));
    same_cfg = c.same_cfg;
  }

  length-goods : (m b : F) (rs : List (Reading F)) → length (goods m b rs) ≡ length rs
  length-goods m b [] = refl
  length-goods m b (r ∷ rs) = omega (arith, length-goods m b rs)

  observe-Counted :
      (m b : F) (rs : List (Reading F)) (a : App F)
      → a.funding_ok_count ≡ pos 0
      → a.funding_bad_count ≡ pos 0
      → length rs < 2 ^ 63
      → Counted (goods m b rs) a (observe m b rs a)
  unfolding observe update_funding_regime
  observe-Counted m b [] a p q h = record { oks = p; bads = q; same_cfg = refl }
  observe-Counted m b ((f, n) ∷ rs) a p q h =
      count_regime-Counted (regime_ok f m n b) (goods m b rs) a (observe m b rs a)
        (omega (arith, length-goods m b rs)) (observe-Counted m b rs a p q (omega arith))

  -- After any readings, from counters at 0 and as long as an `int` can count them, an entry is
  -- confirmed exactly when at least the configured number of the latest readings are good, and an
  -- exit exactly when at least the configured number of them are bad. Numbers below 1 count as 1.
  pub update_funding_regime-streak :
      (min_rate buffer funding net : F) (rs : List (Reading F)) (a : App F)
      → a.funding_ok_count ≡ pos 0
      → a.funding_bad_count ≡ pos 0
      → length rs + 1 < 2 ^ 63
      → let r =
          (update_funding_regime funding min_rate net buffer (observe min_rate buffer rs a)).0 in
        let seen = goods min_rate buffer ((funding, net) ∷ rs) in
        let cfg = a.cfg.strategy in
        (r.ok_confirmed ≡ leb_ℤ (at_least_one cfg.funding_confirmations) (pos (streak true seen)))
        × (r.bad_confirmed
            ≡ leb_ℤ (at_least_one cfg.funding_dip_confirmations) (pos (streak false seen)))
  unfolding update_funding_regime
  update_funding_regime-streak m b f n rs a p q h =
      let c =
        count_regime-Counted (regime_ok f m n b) (goods m b rs) a (observe m b rs a)
          (omega (arith, length-goods m b rs)) (observe-Counted m b rs a p q (omega arith)) in
      (rw (c.oks, c.same_cfg), rw (c.bads, c.same_cfg))
