-- ===== src/Exec/Retry.antt =====
-- The retry loop of internal/exec/executor.go: what its result says of the attempts.
use hyper_basis.Prelude.{
  ℕ, zero, suc, ◌+◌, ◌*◌, ◌^◌, ◌≤◌, ◌<◌, ◌≡◌, refl, subst, Bool, true, false, arith,
}
use native.Mathlib.Nat.{le_refl, pow-suc, mul_assoc}
use hyper_basis.Prelude.Result.{Err, Result, ok, err, retry_failed, context_done}
use hyper_basis.Exec.{Timer, retry_from, retry, after_attempt, after_wait, last_attempt}

module _ {E A : Type 0} (timer : Timer E) (fn : E → Result A × E) where
  -- `n` attempts fail, each followed by a full wait, the first of `backoff` milliseconds and each
  -- other twice as long as the one before it.
  pub data Fails (backoff : ℕ) (e : E) : ℕ → E → Type 0 where
    none_yet : Fails backoff e 0 e
    one_more :
        {n : ℕ} {e₁ e₂ e₃ : E} (x : Err)
        → Fails backoff e n e₁
        → fn e₁ ≡ (err x, e₂)
        → timer.wait_done (backoff * 2 ^ n) e₂ ≡ (false, e₃)
        → Fails backoff e (suc n) e₃

  -- How the loop can end when `left` attempts may follow the first.
  pub data Ends (left backoff : ℕ) (e : E) : Result A × E → Type 0 where
    succeeds :
        {n : ℕ} {e₁ e₂ : E} (a : A)
        → n ≤ left
        → Fails backoff e n e₁
        → fn e₁ ≡ (ok a, e₂)
        → Ends left backoff e (ok a, e₂)
    exhausted :
        {e₁ e₂ : E} (x : Err)
        → Fails backoff e left e₁
        → fn e₁ ≡ (err x, e₂)
        → Ends left backoff e (err retry_failed, e₂)
    cancelled :
        {n : ℕ} {e₁ e₂ e₃ : E} (x : Err)
        → n < left
        → Fails backoff e n e₁
        → fn e₁ ≡ (err x, e₂)
        → timer.wait_done (backoff * 2 ^ n) e₂ ≡ (true, e₃)
        → Ends left backoff e (err context_done, e₃)

  module _ (total backoff : ℕ) (e : E) where
    last-Ends :
        (e₁ : E) (r : Result A × E)
        → Fails backoff e total e₁
        → fn e₁ ≡ r
        → Ends total backoff e (last_attempt timer fn r)
    last-Ends e₁ (ok a, e₂) f p = succeeds a (le_refl total) f p
    last-Ends e₁ (err x, e₂) f p = exhausted x f p

    wait-Ends :
        (n : ℕ) (e₁ e₂ : E) (x : Err) (again : E → Result A × E) (w : Bool × E)
        → n < total
        → Fails backoff e n e₁
        → fn e₁ ≡ (err x, e₂)
        → timer.wait_done (backoff * 2 ^ n) e₂ ≡ w
        → ((e₃ : E) → Fails backoff e (suc n) e₃ → Ends total backoff e (again e₃))
        → Ends total backoff e (after_wait timer fn again w)
    wait-Ends n e₁ e₂ x again (true, e₃) lt f p q next = cancelled x lt f p q
    wait-Ends n e₁ e₂ x again (false, e₃) lt f p q next = next e₃ (one_more x f p q)

    attempt-Ends :
        (n : ℕ) (e₁ : E) (again : E → Result A × E) (r : Result A × E)
        → n < total
        → Fails backoff e n e₁
        → fn e₁ ≡ r
        → ((e₃ : E) → Fails backoff e (suc n) e₃ → Ends total backoff e (again e₃))
        → Ends total backoff e (after_attempt timer fn again (backoff * 2 ^ n) r)
    attempt-Ends n e₁ again (ok a, e₂) lt f p next = succeeds a (omega arith) f p
    attempt-Ends n e₁ again (err x, e₂) lt f p next =
        wait-Ends n e₁ e₂ x again (timer.wait_done (backoff * 2 ^ n) e₂) lt f p refl next

    retry_from-Ends :
        (left n : ℕ) (e₁ : E)
        → n + left ≡ total
        → Fails backoff e n e₁
        → Ends total backoff e (retry_from timer fn left (backoff * 2 ^ n) e₁)
    unfolding retry_from
    retry_from-Ends zero n e₁ k f =
        let same : n ≡ total = omega arith in
        last-Ends e₁ (fn e₁) (subst (λ m. Fails backoff e m e₁) same f) refl
    retry_from-Ends (suc left) n e₁ k f =
        attempt-Ends n e₁ (retry_from timer fn left (backoff * 2 ^ n * 2)) (fn e₁) (omega arith) f
          refl λ e₃ g. rw (twice n) (retry_from-Ends left (suc n) e₃ (omega arith) g)
      where
        twice : (n : ℕ) → backoff * 2 ^ n * 2 ≡ backoff * 2 ^ suc n
        twice n = rw pow-suc (mul_assoc backoff (2 ^ n) 2)

  -- `retry` calls its function at most five times, waiting 200, 400, 800 and 1600 milliseconds
  -- between the calls. It returns the first success, the error of a context that ends during a wait,
  -- or, after five failures, `retry failed`.
  pub retry-Ends : (e : E) → Ends 4 200 e (retry timer fn e)
  unfolding retry
  retry-Ends e = retry_from-Ends 4 200 e 4 0 e refl none_yet
