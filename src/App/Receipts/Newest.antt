-- ===== src/App/Receipts/Newest.antt =====
-- The time of the last funding receipt.
use hyper_basis.Prelude.{
  ◌≡◌, refl, ◌⊎◌, inl, inr, String, true, false, ◌&&◌, ◌||◌, List, [], ◌∷◌, arith, Option, none,
  some, Bool-cases, if◌then◌else◌,
}
use hyper_basis.Prelude.Int.{ℤ, ltb_ℤ, ◌≤ℤ◌, is_zero, zero_time, unix_milli}
use hyper_basis.Prelude.Float.{Float64}
use hyper_basis.Prelude.Result.{Result, ok, err}
use hyper_basis.Strategy.{MarketSnapshot}
use hyper_basis.App.{Services, World, FundingForecast, FundingPayment, set_app}
use hyper_basis.App.Numbers.{flat_epsilon}
use hyper_basis.App.Receipts.{
  is_new_receipt, newest_receipt, is_receipt_due, with_receipts, ask_receipts, receipts_from,
  maybe_log_funding_receipt,
}

-- Nothing new, or a time after the last one.
abbrev IsLater : ℤ → ℤ → Type 0
IsLater last newest = (is_zero newest ≡ true) ⊎ (ltb_ℤ last newest ≡ true)

newer-IsLater :
    (asset : String) (last newest : ℤ) (entry : FundingPayment)
    → is_zero last ≡ false
    → IsLater last newest
    → IsLater last (
        if is_new_receipt asset last entry
          && entry.has_time
          && (is_zero newest || ltb_ℤ newest entry.time)
        then entry.time
        else newest)
newer-IsLater asset last newest entry h p =
    let use_it =
      is_new_receipt asset last entry
      && entry.has_time
      && (is_zero newest || ltb_ℤ newest entry.time) in
    elim (Bool-cases use_it) [ inl k ↦ rw k (inr (ground (arith, h))) | inr k ↦ rw k p ]

newest_receipt-IsLater :
    (asset : String) (last : ℤ) (entries : List FundingPayment) (newest : ℤ)
    → is_zero last ≡ false
    → IsLater last newest
    → IsLater last (newest_receipt asset last newest entries)
unfolding newest_receipt
newest_receipt-IsLater asset last [] newest h p = p
newest_receipt-IsLater asset last (entry ∷ entries) newest h p =
    newest_receipt-IsLater asset last entries _ h (newer-IsLater asset last newest entry h p)

-- The last receipt is one of a time that is not before `last`.
kept_or_later :
    (last newest : ℤ) → IsLater last newest → last ≤ℤ (if is_zero newest then last else newest)
kept_or_later last newest (inl k) = rw k (omega arith)
kept_or_later last newest (inr k) = ground arith

module _ {F E : Type 0} ⦃fl : Float64 F⦄ (sv : Services F E) where
  open fl use {abs, le}

  with_receipts-last :
      (asset : String) (r : Result (List FundingPayment) × E) (w : World F E)
      → is_zero w.app.last_funding_receipt_at ≡ false
      → w.app.last_funding_receipt_at ≤ℤ (with_receipts sv asset r w).app.last_funding_receipt_at
  with_receipts-last asset (err x, e) w h = omega arith
  with_receipts-last asset (ok entries, e) w h =
      let last = w.app.last_funding_receipt_at in
      kept_or_later last (newest_receipt asset last zero_time entries)
        (newest_receipt-IsLater asset last entries zero_time h (inl refl))

  asked :
      (now : ℤ) (snap : MarketSnapshot F) (forecast : FundingForecast F) (w : World F E)
      → is_zero w.app.last_funding_receipt_at ≡ false
      → w.app.last_funding_receipt_at
        ≤ℤ (ask_receipts sv now snap forecast w).app.last_funding_receipt_at
  asked now snap forecast w h =
      let w' = set_app (record w.app { last_funding_receipt_check = now }) w in
      let from = unix_milli (receipts_from now forecast w'.app) in
      with_receipts-last snap.perp_asset (sv.user_funding from w.env) w' h

  -- Once the time of a receipt is known, it never goes back.
  pub maybe_log-last :
      (now : ℤ) (snap : MarketSnapshot F) (forecast : Option (FundingForecast F)) (w : World F E)
      → is_zero w.app.last_funding_receipt_at ≡ false
      → w.app.last_funding_receipt_at
        ≤ℤ (maybe_log_funding_receipt sv now snap forecast w).app.last_funding_receipt_at
  unfolding maybe_log_funding_receipt
  maybe_log-last now snap none w h = omega arith
  maybe_log-last now snap (some forecast) w h =
      elim (Bool-cases (le (abs snap.perp_position) flat_epsilon)) [
        | inl k ↦ rw k (omega arith)
        | inr k ↦ elim (Bool-cases (is_receipt_due now forecast w.app)) [
          | inl due ↦ rw (k, due) (asked now snap forecast w h)
          | inr not_due ↦ rw (k, not_due) (omega arith)
        ]
      ]
