-- ===== src/App/Hedge/Outcome.antt =====
-- What `rebalanceDelta` can do.
use hyper_basis.Prelude.{
  ◌≡◌, refl, inl, inr, String, true, false, Option, none, some, ◌∷◌, arith, Bool-cases, ap,
  if◌then◌else◌,
}
use hyper_basis.Prelude.Int.{pos, ltb_ℤ}
use hyper_basis.Prelude.Float.{Float64, nought}
use hyper_basis.Prelude.Result.{Result, ok, err}
use hyper_basis.Strategy.{MarketSnapshot}
use hyper_basis.App.{Services, World, PerpContext, place, placed}
use hyper_basis.App.Hedge.{
  delta_usd, price_reference, hedge_size, hedge_limit, hedge_order, wants_hedge, after_hedge,
  hedge_with_cloid, hedge_with_perp, rebalance_delta,
}

module _ {F E : Type 0} ⦃fl : Float64 F⦄ (sv : Services F E) where
  open fl use {abs, le, lt, eq}

  pub data HedgeOutcome (snap : MarketSnapshot F) (w : World F E)
      : Result (Unit {0}) × World F E → Type 0 where
    no_order :
        {r : Result (Unit {0})} {w' : World F E}
        → placed w'.calls ≡ placed w.calls
        → HedgeOutcome snap w (r, w')
    hedged :
        {r : Result (Unit {0})} {w' : World F E} (perp : PerpContext F) (cloid : String)
        → sv.perp_context snap.perp_asset w.env ≡ some perp
        → ltb_ℤ (pos 0) snap.open_order_count ≡ false
        → le (abs (delta_usd snap)) w.app.cfg.strategy.delta_band_usd ≡ false
        → lt (abs (delta_usd snap)) w.app.cfg.strategy.min_exposure_usd ≡ false
        → le (hedge_size snap perp) nought ≡ false
        → le (hedge_limit w.app.cfg.strategy snap perp) nought ≡ false
        → placed w'.calls ≡ hedge_order w.app.cfg.strategy snap perp cloid ∷ placed w.calls
        → HedgeOutcome snap w (r, w')

  after_hedge-calls :
      (r : Result String × E) (w : World F E) → (after_hedge sv r w).1.calls ≡ w.calls
  after_hedge-calls (ok id, e) w = refl
  after_hedge-calls (err x, e) w = refl

  with_cloid-Outcome :
      (snap : MarketSnapshot F) (w : World F E) (perp : PerpContext F) (c : Result String × E)
      → sv.perp_context snap.perp_asset w.env ≡ some perp
      → ltb_ℤ (pos 0) snap.open_order_count ≡ false
      → wants_hedge w.app.cfg.strategy snap ≡ true
      → le (hedge_size snap perp) nought ≡ false
      → le (hedge_limit w.app.cfg.strategy snap perp) nought ≡ false
      → HedgeOutcome snap w (hedge_with_cloid sv snap perp w c)
  with_cloid-Outcome snap w perp (err x, e) p q want size limit = no_order refl
  with_cloid-Outcome snap w perp (ok cloid, e) p q want size limit =
      let order = hedge_order w.app.cfg.strategy snap perp cloid in
      let w' : World F E = record { app = w.app; env = e; calls = place order ∷ w.calls } in
      hedged perp cloid p q (ground arith) (ground arith) size limit
        (ap placed (after_hedge-calls (sv.place_order order e) w'))

  with_perp-Outcome :
      (snap : MarketSnapshot F) (w : World F E) (o : Option (PerpContext F))
      → sv.perp_context snap.perp_asset w.env ≡ o
      → ltb_ℤ (pos 0) snap.open_order_count ≡ false
      → wants_hedge w.app.cfg.strategy snap ≡ true
      → HedgeOutcome snap w (hedge_with_perp sv snap w o)
  with_perp-Outcome snap w none p q want = no_order refl
  with_perp-Outcome snap w (some perp) p q want =
      elim (Bool-cases (le (hedge_size snap perp) nought)) [
        | inl h ↦ rw h (no_order refl)
        | inr size ↦ elim (Bool-cases (le (hedge_limit w.app.cfg.strategy snap perp) nought)) [
          | inl h ↦ rw (size, h) (no_order refl)
          | inr limit ↦
              rw (size, limit)
                (with_cloid-Outcome snap w perp (sv.new_cloid w.env) p q want size limit)
        ]
      ]

  wanted-Outcome :
      (snap : MarketSnapshot F) (w : World F E)
      → ltb_ℤ (pos 0) snap.open_order_count ≡ false
      → HedgeOutcome snap w (
          if wants_hedge w.app.cfg.strategy snap
          then hedge_with_perp sv snap w (sv.perp_context snap.perp_asset w.env)
          else (ok tt, w))
  wanted-Outcome snap w q = elim (Bool-cases (wants_hedge w.app.cfg.strategy snap)) [
    | inl want ↦
        rw want (with_perp-Outcome snap w (sv.perp_context snap.perp_asset w.env) refl q want)
    | inr h ↦ rw h (no_order refl)
  ]

  -- `rebalanceDelta` places at most one order. Where it places one, no orders are open, the delta is
  -- outside the band and not below the smallest exposure, the rounded size and the limit price are
  -- positive, and the order is the one that `hedge_order` describes.
  pub rebalance_delta-HedgeOutcome :
      (snap : MarketSnapshot F) (w : World F E) → HedgeOutcome snap w (rebalance_delta sv snap w)
  unfolding rebalance_delta
  rebalance_delta-HedgeOutcome snap w =
      elim (Bool-cases (le w.app.cfg.strategy.delta_band_usd nought)) [
        | inl h ↦ rw h (no_order refl)
        | inr a ↦ elim (Bool-cases (ltb_ℤ (pos 0) snap.open_order_count)) [
          | inl h ↦ rw (a, h) (no_order refl)
          | inr q ↦ elim (Bool-cases (eq (price_reference snap) nought)) [
            | inl h ↦ rw (a, q, h) (no_order refl)
            | inr b ↦ rw (a, q, b) (wanted-Outcome snap w q)
          ]
        ]
      ]
