-- ===== src/Exec.antt =====
-- internal/exec/executor.go: orders are placed once for each client order id, with retries. What the
-- executor reaches outside itself (the exchange, the store, the timer of the backoff) is a record of
-- operations on an environment `E`.
pub mod Retry
pub mod Idempotent
pub mod Callers
pub mod Shared
pub mod Served
use Prim.Native.String.{◌++◌ as append}
use hyper_basis.Prelude.{
  ℕ, zero, suc, ◌*◌, String, Bool, true, false, Option, none, some, List, [], str_eq, if◌then◌else◌,
}
use hyper_basis.Prelude.Int.{ℤ}
use hyper_basis.Prelude.Result.{Err, Result, ok, err, retry_failed, context_done, empty_order_id}
use hyper_basis.Prelude.Dict.{lookup, insert}

pub record Order (F : Type 0) : Type 0 where
  pub asset : ℤ
  pub is_buy : Bool
  pub size : F
  pub limit_price : F
  pub reduce_only : Bool
  pub client_order_id : String
  pub tif : String

pub record Cancel : Type 0 where
  pub asset : ℤ
  pub order_id : String

pub record RestClient (F E : Type 0) : Type 0 where
  pub place_order : Order F → E → Result String × E
  pub cancel_order : Cancel → E → Result (Unit {0}) × E

-- The two operations of `state.Store` that the executor uses.
pub record Store (E : Type 0) : Type 0 where
  pub get : String → E → Result (Option String) × E
  pub set : String → String → E → Result (Unit {0}) × E

-- `wait_done ms e` is true if the context ends before the backoff of `ms` milliseconds.
pub record Timer (E : Type 0) : Type 0 where
  pub wait_done : ℕ → E → Bool × E

-- The executor's own state beside its environment: `e.cache`.
pub record Executor (E : Type 0) : Type 0 where
  pub cache : List (String × String)
  pub env : E

abbrev pub attempts : ℕ
attempts = 5

module _ {E A : Type 0} (timer : Timer E) (fn : E → Result A × E) where
  abbrev last_attempt : Result A × E → Result A × E
  last_attempt (ok a, e) = (ok a, e)
  last_attempt (err x, e) = (err retry_failed, e)

  abbrev after_wait : (E → Result A × E) → Bool × E → Result A × E
  after_wait again (true, e) = (err context_done, e)
  after_wait again (false, e) = again e

  abbrev after_attempt : (E → Result A × E) → ℕ → Result A × E → Result A × E
  after_attempt again backoff (ok a, e) = (ok a, e)
  after_attempt again backoff (err x, e) = after_wait again (timer.wait_done backoff e)

  -- `left` attempts follow this one: the loop ends by a `return` in its fifth round at the latest.
  unfoldable pub retry_from : ℕ → ℕ → E → Result A × E
  retry_from zero backoff e = last_attempt (fn e)
  retry_from (suc left) backoff e = after_attempt (retry_from left (backoff * 2)) backoff (fn e)

  unfoldable pub retry : E → Result A × E
  retry = retry_from 4 200

abbrev pub cache_key : String → String
cache_key client_order_id = append "cloid:" client_order_id

module _ {F E : Type 0} (rest : RestClient F E) (store : Option (Store E)) (timer : Timer E) where
  abbrev refuse_empty : Result String × E → Result String × E
  refuse_empty (ok id, e) = (if str_eq id "" then err empty_order_id else ok id, e)
  refuse_empty (err x, e) = (err x, e)

  unfoldable pub place_with_retry : Order F → E → Result String × E
  place_with_retry order e = refuse_empty (retry timer (rest.place_order order) e)

  abbrev persist_id : Option (Store E) → String → String → E → E
  persist_id none key id e = e
  persist_id (some st) key id e = (st.set key id e).1

  -- A failed `Set` is logged only: the id is cached all the same.
  abbrev remember : String → List (String × String) → Result String × E → Result String × Executor E
  remember key cache (err x, e) = (err x, record { cache = cache; env = e })
  remember key cache (ok id, e) =
      (ok id, record { cache = insert key id cache; env = persist_id store key id e })

  abbrev from_store :
      Order F
      → String
      → List (String × String)
      → Result (Option String) × E
      → Result String × Executor E
  from_store order key cache (err x, e) = (err x, record { cache = cache; env = e })
  from_store order key cache (ok (some id), e) =
      (ok id, record { cache = insert key id cache; env = e })
  from_store order key cache (ok none, e) = remember key cache (place_with_retry order e)

  abbrev ask_store : Option (Store E) → String → E → Result (Option String) × E
  ask_store none key e = (ok none, e)
  ask_store (some st) key e = st.get key e

  abbrev from_cache : Order F → String → Executor E → Option String → Result String × Executor E
  from_cache order key x (some id) = (ok id, x)
  from_cache order key x none = from_store order key x.cache (ask_store store key x.env)

  abbrev uncached : List (String × String) → Result String × E → Result String × Executor E
  uncached cache (r, e) = (r, record { cache = cache; env = e })

  unfoldable pub place_order : Order F → Executor E → Result String × Executor E
  place_order order x =
      let key = cache_key order.client_order_id in
      if str_eq order.client_order_id ""
      then uncached x.cache (place_with_retry order x.env)
      else from_cache order key x (lookup key x.cache)

  unfoldable pub cancel_order : Cancel → Executor E → Result (Unit {0}) × Executor E
  cancel_order cancel x =
      let (r, e) = retry timer (rest.cancel_order cancel) x.env in
      (r, record { cache = x.cache; env = e })
