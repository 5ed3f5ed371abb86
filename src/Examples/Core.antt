-- ===== src/Examples/Core.antt =====
-- The state machine, the checks, the nonces and the executor at concrete inputs.
use mathlib.Core.List.{Memᴰ}
use mathlib.Core.Bool.{false≢true}
use hyper_basis.Prelude.{
  ℕ, ◌+◌, ◌<◌, ◌≡◌, ◌≢◌, ◌↔◌, ◌⊎◌, refl, String, true, false, none, some, List, [], ◌∷◌, arith, All,
  eq_iff, ◌==◌, if◌then◌else◌,
}
use hyper_basis.Prelude.Int.{pos, seconds}
use hyper_basis.Prelude.Float.{Fixed, fixed}
use hyper_basis.Prelude.Result.{Err, ok, err, retry_failed}
use hyper_basis.Prelude.Dict.{lookup, insert, lookup-insert}
use hyper_basis.Strategy.{State, Event, new_state_machine, apply, check_risk, check_connectivity}
use hyper_basis.Strategy.Machine.{
  Edge, apply-Edge, apply_all, apply_all_needs_enter, apply_all_needs_done,
}
use hyper_basis.Strategy.Checks.{Violates, check_risk_sound, Stale, check_connectivity_sound}
use hyper_basis.Nonce.{
  Client, Move, clock, load, swap, persist, run, start, init_nonce_store, next_after, step,
  persist_nonce,
}
use hyper_basis.Nonce.Race.{Descending, issued-Descending}
use hyper_basis.Nonce.Restart.{restart_above_returns}
use hyper_basis.Exec.{
  Order, RestClient, Store, Timer, Executor, place_order, place_with_retry, retry, retry_from,
}
use hyper_basis.Exec.Retry.{Ends, retry-Ends}
use hyper_basis.Exec.Idempotent.{Keeps, key_of, place_all, place_order_once, place_order_restart}
use hyper_basis.Examples.Bench.{risk, market}

apply-Edge_example :
    (Edge State.idle Event.enter (apply new_state_machine Event.enter).1
      ⊎ ((apply new_state_machine Event.enter).1 ≡ State.idle))
    × ((t : State) → Edge State.idle Event.enter t → (apply new_state_machine Event.enter).1 ≡ t)
    × ((apply new_state_machine Event.enter).0.state ≡ (apply new_state_machine Event.enter).1)
apply-Edge_example = apply-Edge new_state_machine Event.enter

abbrev opening : List Event
opening = Event.enter ∷ Event.hedge_ok ∷ []

apply_all_needs_enter_example : Memᴰ Event.enter opening
unfolding apply_all apply
apply_all_needs_enter_example = apply_all_needs_enter new_state_machine opening refl (λ e. cc)

abbrev closing : List Event
closing = Event.exit ∷ Event.done ∷ []

apply_all_needs_done_example : Memᴰ Event.done closing
unfolding apply_all apply
apply_all_needs_done_example =
    apply_all_needs_done (record { state = State.hedge_ok }) closing (λ e. cc) refl

check_risk_sound_example :
    ((check_risk risk market ≡ ok tt) ↔ ((e : Err) → ¬ Violates risk market e))
    × ((e : Err) → check_risk risk market ≡ err e → Violates risk market e)
check_risk_sound_example = check_risk_sound risk market

check_connectivity_sound_example :
    ((check_connectivity risk (seconds 61) (seconds 3) ≡ ok tt)
      ↔ ((e : Err) → ¬ Stale risk (seconds 61) (seconds 3) e))
    × ((e : Err)
        → check_connectivity risk (seconds 61) (seconds 3) ≡ err e
        → Stale risk (seconds 61) (seconds 3) e)
check_connectivity_sound_example = check_connectivity_sound risk (seconds 61) (seconds 3)

abbrev client : Client
client = record { last_nonce = 100; last_persisted = 100; has_store = true }

-- Two goroutines read the clock, both load the last nonce, and the second one's swap fails once.
abbrev race : List Move
race =
    clock 0 150
    ∷ clock 1 150
    ∷ load 0
    ∷ load 1
    ∷ swap 0
    ∷ swap 1
    ∷ load 1
    ∷ swap 1
    ∷ persist 1 true
    ∷ persist 0 true
    ∷ []

race_issued : (run (start client none) race).issued ≡ 151 ∷ 150 ∷ []
unfolding run step persist_nonce next_after
race_issued = refl

issued-Descending_example :
    Descending (run (start client none) race).issued
    × All (λ n. 100 < n) (run (start client none) race).issued
issued-Descending_example =
    issued-Descending client none 150 race (omega arith) (omega arith) (omega arith)

abbrev restarted : Client
restarted = record { last_nonce = 151; last_persisted = 151; has_store = true }

abbrev later : List Move
later = clock 0 120 ∷ load 0 ∷ swap 0 ∷ []

-- The store holds 151 when the bot starts again, and the clock has gone back to 120.
restart_above_returns_example :
    All
      (λ m. All (λ n. n < m) (run (start client none) race).returns)
      (run (start restarted (run (start client none) race).stored) later).issued
unfolding run step persist_nonce next_after init_nonce_store
restart_above_returns_example =
    restart_above_returns client (record { last_nonce = 0; last_persisted = 0; has_store = false })
      restarted none 150 151 120 race later refl refl (omega arith) (omega arith) (omega arith)
      (tt, (tt, (tt, (tt, (tt, (tt, (tt, (tt, (refl, (refl, tt)))))))))) refl (omega arith)
      (omega arith) (omega arith)

-- An environment of the executor: the orders sent and the store.
abbrev Outside : Type 0
Outside = ℕ × List (String × String)

-- The exchange refuses the first call and takes the second.
abbrev flaky : RestClient Fixed Outside
flaky = record {
  place_order = λ order e. (if e.0 == 0 then err retry_failed else ok "77", (e.0 + 1, e.1));
  cancel_order = λ c e. (ok tt, e);
}

abbrev kept : Store Outside
kept = record { get = λ k e. (ok (lookup k e.1), e); set = λ k v e. (ok tt, (e.0, insert k v e.1)) }

abbrev patient : Timer Outside
patient = record { wait_done = λ ms e. (false, e) }

kept-Keeps : Keeps kept
kept-Keeps = record {
  get-set = λ k v e. rw lookup-insert (ground (arith, eq_iff k k));
  get-get = λ k v e e' h. ground arith;
}

abbrev order : Order Fixed
order = record {
  asset = pos 3;
  is_buy = true;
  size = pos 1;
  limit_price = pos 1;
  reduce_only = false;
  client_order_id = "0xab";
  tif = "Ioc";
}

abbrev outside : Outside
outside = (0, [])

retry-Ends_example :
    Ends patient
      (flaky.place_order order)
      4
      200
      outside
      (retry patient (flaky.place_order order) outside)
retry-Ends_example = retry-Ends patient (flaky.place_order order) outside

abbrev executor : Executor Outside
executor = record { cache = []; env = outside }

named : order.client_order_id ≢ ""
named e = false≢true ((eq_iff "0xab" "").1 e)

placed_id : (place_order flaky (some kept) patient order executor).0 ≡ ok "77"
unfolding place_order lookup place_with_retry retry retry_from
placed_id = refl

place_order_once_example :
    let x' = (place_order flaky (some kept) patient order executor).1 in
    place_order flaky (some kept) patient order x' ≡ (ok "77", x')
unfolding place_all
place_order_once_example =
    place_order_once flaky (some kept) patient order order [] "77" executor named refl placed_id

place_order_restart_example :
    let e = (place_order flaky (some kept) patient order executor).1.env in
    place_order flaky (some kept) patient order (record { cache = []; env = e })
    ≡ (ok "77", record { cache = insert (key_of order) "77" []; env = e })
unfolding lookup
place_order_restart_example =
    place_order_restart flaky kept patient kept-Keeps order "77" executor named refl placed_id
