-- ===== src/Market/Funding/Next.antt =====
-- When the next funding payment is, after the forecast has been brought up to date.
use native.Mathlib.Nat.{div-le_self}
use native.Mathlib.Omega.{div_fact, mod_fact}
use hyper_basis.Prelude.{
  ℕ, suc, ◌+◌, ◌*◌, ◌/◌, ◌%◌, ◌^◌, ◌≤◌, ◌<◌, ◌≡◌, refl, true, false, some, arith, Bool-cases, inl,
  inr, ◌∙◌, ap, ◌-◌,
}
use hyper_basis.Prelude.Int.{
  ℤ, pos, negsuc, ◌≤ℤ◌, ltb_ℤ, leb_ℤ, ◌+ℤ◌, ◌-ℤ◌, ◌*ℤ◌, wrap, wrap_small, saturate, is_zero,
  pos_part, neg_part, +ℤ_parts, -ℤ_parts,
}
use hyper_basis.Market.Funding.{
  FundingForecast, normalize_funding_forecast, next_at, moved_on, moved_by, steps_between,
}

-- A whole number of steps of length suc b that is just above n.
steps_above :
    (n b : ℕ)
    → (n < (n / suc b + 1) * suc b) × ((n / suc b + 1) * suc b ≤ n + suc b) × (n / suc b ≤ n)
steps_above n b =
    let whole : (n / suc b + 1) * suc b ≡ suc b * (n / suc b) + suc b = grind arith in
    let small : n % suc b < suc b = mod_fact n b in
    let parts : suc b * (n / suc b) + n % suc b ≡ n = div_fact n b in
    (omega (arith, whole, small, parts), omega (arith, whole, parts), div-le_self n (suc b))

pos_add : (a b : ℕ) → pos a +ℤ pos b ≡ pos (a + b)
unfolding ◌+ℤ◌
pos_add a b = ground arith

pos_mul : (a b : ℕ) → pos a *ℤ pos b ≡ pos (a * b)
unfolding ◌*ℤ◌
pos_mul a b = ground arith

saturate_small : (n : ℕ) → n < 2 ^ 62 → saturate (pos n) ≡ pos n
unfolding saturate
saturate_small n h = ground (arith, h)

moved_by_steps :
    (next now : ℤ) (q b : ℕ)
    → is_zero next ≡ false
    → ltb_ℤ now next ≡ false
    → moved_by next (pos (suc b)) now (pos (q + 1)) ≡ next +ℤ wrap (pos (q + 1) *ℤ pos (suc b))
unfolding moved_by
moved_by_steps next now q b z p =
    let long : leb_ℤ (pos (suc b)) (pos 0) ≡ false = ground arith in
    let more : ltb_ℤ (pos 0) (pos (q + 1)) ≡ true = ground arith in rw (z, p, long, more) refl

moved_far :
    (next now : ℤ) (n b : ℕ)
    → now -ℤ next ≡ pos n
    → is_zero next ≡ false
    → ltb_ℤ now next ≡ false
    → n < 2 ^ 62
    → suc b < 2 ^ 62
    → moved_on next (pos (suc b)) now ≡ next +ℤ pos ((n / suc b + 1) * suc b)
unfolding moved_on steps_between
moved_far next now n b d z p h k =
    let (_, above, le) = steps_above n b in
    let one : steps_between next (pos (suc b)) now ≡ pos (n / suc b + 1) =
      rw (d, saturate_small n h, pos_add) (wrap_small (n / suc b + 1) (omega (arith, le, h))) in
    let all : wrap (pos (n / suc b + 1) *ℤ pos (suc b)) ≡ pos ((n / suc b + 1) * suc b) =
      rw pos_mul (wrap_small ((n / suc b + 1) * suc b) (omega (arith, above, h, k))) in
    ap (moved_by next (pos (suc b)) now) one
    ∙ moved_by_steps next now (n / suc b) b z p
    ∙ ap (λ step. next +ℤ step) all

-- A time that is after now, some whole intervals after the old one, and the first such time if the old
-- one has passed.
pub record Upcoming (next now : ℤ) (interval : ℕ) (moved : ℤ) : Type 0 where
  pub after : now +ℤ pos 1 ≤ℤ moved
  pub steps : ℕ
  pub whole : moved ≡ next +ℤ pos (steps * interval)
  pub first : next ≤ℤ now → moved ≤ℤ now +ℤ pos interval

no_steps : (next : ℤ) (b : ℕ) → next ≡ next +ℤ pos (0 * suc b)
unfolding ◌+ℤ◌
no_steps (pos n) b = ground arith
no_steps (negsuc n) b = ground arith

passed-Upcoming :
    (next now d : ℤ) (b : ℕ)
    → now -ℤ next ≡ d
    → is_zero next ≡ false
    → ltb_ℤ now next ≡ false
    → now ≤ℤ next +ℤ pos (2 ^ 62 - 1)
    → suc b < 2 ^ 62
    → Upcoming next now (suc b) (moved_on next (pos (suc b)) now)
passed-Upcoming next now (negsuc m) b d z p h k =
    let parts = -ℤ_parts now next in
    let due : pos_part next + neg_part now ≤ pos_part now + neg_part next = ground (arith, p) in
    let short : 0 + neg_part now + pos_part next ≡ suc m + pos_part now + neg_part next =
      rw d at parts in
    absurd (omega (arith, due, short))
passed-Upcoming next now (pos n) b d z p h k =
    let parts : n + neg_part now + pos_part next ≡ 0 + pos_part now + neg_part next =
      rw d at (-ℤ_parts now next) in
    let reach = +ℤ_parts next (pos (2 ^ 62 - 1)) in
    let step = (n / suc b + 1) * suc b in
    let (past, above, le) = steps_above n b in
    let moved = moved_far next now n b d z p (omega (arith, parts, h, reach)) k in
    rw moved (record {
      after = omega (arith, parts, past, +ℤ_parts next (pos step), +ℤ_parts now (pos 1));
      steps = n / suc b + 1;
      whole = refl;
      first =
          λ due. omega (arith, parts, above, +ℤ_parts next (pos step), +ℤ_parts now (pos (suc b)));
    })

ahead_stays :
    (next now : ℤ) (i : ℕ)
    → is_zero next ≡ false
    → ltb_ℤ now next ≡ true
    → moved_on next (pos i) now ≡ next
unfolding moved_on moved_by
ahead_stays next now i z p = rw (z, p) refl

moved_on-Upcoming :
    (next now : ℤ) (b : ℕ)
    → is_zero next ≡ false
    → now ≤ℤ next +ℤ pos (2 ^ 62 - 1)
    → suc b < 2 ^ 62
    → Upcoming next now (suc b) (moved_on next (pos (suc b)) now)
moved_on-Upcoming next now b z h k = elim (Bool-cases (ltb_ℤ now next)) [
  | inl p ↦
      let ahead : pos_part now + neg_part next < pos_part next + neg_part now = ground (arith, p) in
      rw (ahead_stays next now (suc b) z p) (record {
        after = omega (arith, ahead, +ℤ_parts now (pos 1));
        steps = 0;
        whole = no_steps next b;
        first = λ due. absurd (omega (arith, ahead, due));
      })
  | inr p ↦ passed-Upcoming next now (now -ℤ next) b refl z p h k
]

-- A forecast with a time that is not the zero time and with a positive interval, no more than 2^62
-- nanoseconds (146 years) each behind now and long: after `normalizeFundingForecast` its time is after
-- now and a whole number of intervals after the old one; and if the old one was not after now, it is at
-- most one interval after now.
pub normalize_funding_forecast-Upcoming :
    {F : Type 0} (forecast : FundingForecast F) (next now : ℤ) (b : ℕ)
    → forecast.next_funding ≡ some next
    → forecast.interval ≡ pos (suc b)
    → is_zero next ≡ false
    → now ≤ℤ next +ℤ pos (2 ^ 62 - 1)
    → suc b < 2 ^ 62
    → (moved : ℤ) × ((normalize_funding_forecast forecast now).next_funding ≡ some moved)
      × Upcoming next now (suc b) moved
unfolding normalize_funding_forecast next_at
normalize_funding_forecast-Upcoming forecast next now b e i z h k =
    (moved_on next (pos (suc b)) now, rw (e, i) refl, moved_on-Upcoming next now b z h k)
