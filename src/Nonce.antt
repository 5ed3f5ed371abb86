-- ===== src/Nonce.antt =====
-- internal/hl/exchange/client.go: the nonces of the exchange client. `Client` is the client's own
-- state, and `System` is a client that several goroutines use at once: a goroutine is in a phase of
-- `nextNonce`, and a move is one atomic action of it (a clock reading, an atomic load, a
-- compare-and-swap, the critical section of `persistNonce`).
pub mod Race
pub mod Restart
use hyper_basis.Prelude.{
  ℕ, zero, suc, ◌+◌, ◌%◌, ◌^◌, Bool, true, false, Option, none, some, List, [], ◌∷◌, ltb, leb, ◌==◌,
  if◌then◌else◌,
}
use hyper_basis.Prelude.Result.{Err, Result, ok, err, external}

-- `uint64` fields; `has_store` says that `nonceStore` and `nonceKey` are set.
pub record Client : Type 0 where
  pub last_nonce : ℕ
  pub last_persisted : ℕ
  pub has_store : Bool

-- What `Get` of the nonce store answers, with the decimal text read by `ParseUint`.
pub data Stored : Type 0 where
  get_failed missing unparsable : Stored
  found : ℕ → Stored

abbrev larger : ℕ → ℕ → ℕ
larger a b = if ltb b a then a else b

seeded : Client → ℕ → Client
seeded c seed =
    let seed' = larger c.last_nonce seed in
    record { last_nonce = seed'; last_persisted = seed'; has_store = true }

-- The client has a signer.
unfoldable pub init_nonce_store : ℕ → Stored → Client → Result Client
unfolding seeded
init_nonce_store now get_failed c = err (external "nonce store get")
init_nonce_store now missing c = ok (seeded c now)
init_nonce_store now unparsable c = err (external "invalid stored nonce")
init_nonce_store now (found parsed) c = ok (seeded c (larger parsed now))

-- The nonce that follows `prev` when the clock reads `now`.
unfoldable pub next_after : ℕ → ℕ → ℕ
next_after now prev = if leb now prev then (prev + 1) % 2 ^ 64 else now

pub data Phase : Type 0 where
  fresh : Phase
  timed : ℕ → Phase
  loaded : (now prev : ℕ) → Phase
  won : ℕ → Phase
  returned : ℕ → Phase

pub record System : Type 0 where
  pub client : Client
  -- the nonce that the store holds
  pub stored : Option ℕ
  pub phase : ℕ → Phase
  -- the nonces that a compare-and-swap has handed out, the newest first
  pub issued : List ℕ
  -- the nonces that `nextNonce` has returned, after `persistNonce`, the newest first
  pub returns : List ℕ

pub data Move : Type 0 where
  clock : (thread now : ℕ) → Move
  load : (thread : ℕ) → Move
  swap : (thread : ℕ) → Move
  -- the flag says whether `Set` of the store succeeds
  persist : (thread : ℕ) → Bool → Move

abbrev pub update : (ℕ → Phase) → ℕ → Phase → ℕ → Phase
update f t p u = if t == u then p else f u

read_clock : ℕ → ℕ → Phase → System → System
read_clock t now fresh s = record s { phase = update s.phase t (timed now) }
read_clock t now (returned n) s = record s { phase = update s.phase t (timed now) }
read_clock t now _ s = s

load_last : ℕ → Phase → System → System
load_last t (timed now) s = record s { phase = update s.phase t (loaded now s.client.last_nonce) }
load_last t _ s = s

compare_and_swap : ℕ → Phase → System → System
compare_and_swap t (loaded now prev) s =
    let next = next_after now prev in
    if s.client.last_nonce == prev
    then record {
      client = record s.client { last_nonce = next };
      stored = s.stored;
      phase = update s.phase t (won next);
      issued = next ∷ s.issued;
      returns = s.returns;
    }
    else record s { phase = update s.phase t (timed now) }
compare_and_swap t _ s = s

unfoldable pub persist_nonce : Bool → ℕ → System → System
persist_nonce set_ok nonce s =
    if s.client.has_store
    then (if leb nonce s.client.last_persisted
        then s
        else if set_ok
        then record s { client = record s.client { last_persisted = nonce }; stored = some nonce }
        else s)
    else s

finish : ℕ → Bool → Phase → System → System
finish t set_ok (won nonce) s =
    let s' = persist_nonce set_ok nonce s in
    record s' { phase = update s'.phase t (returned nonce); returns = nonce ∷ s'.returns }
finish t set_ok _ s = s

-- A move that the thread's phase does not allow changes nothing.
unfoldable pub step : System → Move → System
unfolding read_clock load_last compare_and_swap finish
step s (clock t now) = read_clock t now (s.phase t) s
step s (load t) = load_last t (s.phase t) s
step s (swap t) = compare_and_swap t (s.phase t) s
step s (persist t set_ok) = finish t set_ok (s.phase t) s

unfoldable pub run : System → List Move → System
run s [] = s
run s (m ∷ ms) = run (step s m) ms

-- A client that `InitNonceStore` has seeded, before any call of `nextNonce`.
abbrev pub start : Client → Option ℕ → System
start c stored = record {
  client = c;
  stored = stored;
  phase = λ _. fresh;
  issued = [];
  returns = [];
}
