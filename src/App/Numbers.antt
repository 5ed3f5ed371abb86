-- ===== src/App/Numbers.antt =====
-- internal/app/app.go: sizes, prices and exposures, and the USDC transfer plan.
use hyper_basis.Prelude.{ℕ, suc, ◌-◌, Bool, true, false, ◌&&◌, ◌||◌, none, some, if◌then◌else◌}
use hyper_basis.Prelude.Int.{ℤ, pos, negsuc, leb_ℤ}
use hyper_basis.Prelude.Float.{Float64, nought}
use hyper_basis.Prelude.Result.{Result, ok, err, insufficient_total, insufficient_split}
use hyper_basis.Config.{StrategyConfig}

pub record UsdcTransferPlan (F : Type 0) : Type 0 where
  pub amount : F
  pub to_perp : Bool

-- `-` stops at 0, as the code's decimals do.
abbrev pub price_decimals : Bool → ℤ → ℕ
price_decimals is_spot (pos sz_decimals) = (if is_spot then 8 else 6) - sz_decimals
price_decimals is_spot (negsuc n) = if is_spot then 8 else 6

module _ {F : Type 0} ⦃fl : Float64 F⦄ where
  open fl use {lit, add, sub, mul, div, abs, floor, round, pow10, five_digits, lt, le, eq}

  abbrev pub flat_epsilon : F
  flat_epsilon = lit 1 6

  unfoldable pub is_flat : F → F → Bool
  is_flat spot_balance perp_position =
      le (abs spot_balance) flat_epsilon && le (abs perp_position) flat_epsilon

  unfoldable pub exposure_below_threshold : StrategyConfig F → F → F → Bool
  exposure_below_threshold cfg size price =
      if le cfg.min_exposure_usd nought || le price nought
      then false
      else lt (mul (abs size) price) cfg.min_exposure_usd

  unfoldable pub is_exposure_flat : StrategyConfig F → F → F → F → F → Bool
  is_exposure_flat cfg spot_balance perp_position spot_price perp_price =
      if is_flat spot_balance perp_position
      then true
      else exposure_below_threshold cfg spot_balance spot_price
        && exposure_below_threshold cfg perp_position perp_price

  unfoldable pub round_down : F → ℤ → F
  round_down value (pos (suc d)) =
      let factor = pow10 (suc d) in div (floor (mul value factor)) factor
  round_down value _ = floor value

  unfoldable pub round_to : F → ℤ → F
  round_to value (pos (suc d)) = let factor = pow10 (suc d) in div (round (mul value factor)) factor
  round_to value _ = round value

  -- `if decimals >= 0 { size = roundDown(size, decimals) }`
  unfoldable pub round_size : F → ℤ → F
  unfolding round_down
  round_size size decimals = if leb_ℤ (pos 0) decimals then round_down size decimals else size

  abbrev significant : F → F
  significant price = elim (five_digits price) [ none ↦ price | some sig ↦ sig ]

  unfoldable pub normalize_limit_price : F → Bool → ℤ → F
  unfolding round_to
  normalize_limit_price price is_spot sz_decimals =
      if eq price nought
      then nought
      else round_to (significant price) (pos (price_decimals is_spot sz_decimals))

  unfoldable pub apply_price_offset : F → Bool → F → F
  apply_price_offset price is_buy bps =
      if le price nought || le bps nought
      then price
      else (let scale = div bps (lit 10000 0) in
          if is_buy then mul price (add (lit 1 0) scale) else mul price (sub (lit 1 0) scale))

  unfoldable pub limit_price_with_offset : F → Bool → Bool → ℤ → F → F
  unfolding apply_price_offset normalize_limit_price
  limit_price_with_offset price is_buy is_spot sz_decimals bps =
      if eq price nought
      then nought
      else normalize_limit_price (apply_price_offset price is_buy bps) is_spot sz_decimals

  abbrev at_least_nought : F → F
  at_least_nought x = if lt x nought then nought else x

  unfoldable pub plan_usdc_transfer : F → F → F → F → Result (UsdcTransferPlan F)
  plan_usdc_transfer spot_usdc perp_usdc spot_required perp_required =
      let spot_required' = at_least_nought spot_required in
      let perp_required' = at_least_nought perp_required in
      let total_required = add spot_required' perp_required' in
      let total_available = add spot_usdc perp_usdc in
      let spot_short = sub spot_required' spot_usdc in
      let perp_short = sub perp_required' perp_usdc in
      if lt nought total_required && lt (add total_available flat_epsilon) total_required
      then err insufficient_total
      else if lt flat_epsilon spot_short && lt flat_epsilon perp_short
      then err insufficient_split
      else if lt flat_epsilon spot_short
      then ok (record { amount = spot_short; to_perp = false })
      else if lt flat_epsilon perp_short
      then ok (record { amount = perp_short; to_perp = true })
      else ok (record { amount = nought; to_perp = false })
