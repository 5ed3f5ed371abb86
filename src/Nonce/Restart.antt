-- ===== src/Nonce/Restart.antt =====
-- A restart of the bot: the nonces of the new run are above all that the old run has returned, if
-- the store has kept what it was given.
use hyper_basis.Prelude.{
  ℕ, suc, ◌+◌, ◌^◌, ◌≤◌, ◌<◌, ◌≡◌, ◌⊎◌, inl, inr, true, Option, none, some, List, [], ◌∷◌, arith,
  length, All, All_mono, ◌==◌, Bool-cases,
}
use hyper_basis.Prelude.Result.{ok}
use hyper_basis.Nonce.{
  Client, Stored, missing, found, Phase, System, Move, fresh, timed, loaded, won, returned, clock,
  load, swap, persist, next_after, read_clock, load_last, compare_and_swap, finish, persist_nonce,
  init_nonce_store, update, step, run, start,
}
use hyper_basis.Nonce.Race.{
  Readings, Growing, next_after-lt, start-Growing, step-Growing, issued-Descending,
}

-- Every `Set` of the store succeeds.
abbrev pub Sets : List Move → Type 0
Sets = All λ m. elim m [ persist t b ↦ b ≡ true | _ ↦ Unit {0} ]

-- What `Get` answers of a store that holds this.
abbrev pub reply : Option ℕ → Stored
reply none = missing
reply (some v) = found v

abbrev PhaseAbove : ℕ → Phase → Type 0
PhaseAbove seed (won n) = seed < n
PhaseAbove seed _ = Unit

record Durable (seed : ℕ) (s : System) : Type 0 where
  has_store : s.client.has_store ≡ true
  phases : (t : ℕ) → PhaseAbove seed (s.phase t)
  seeded : seed ≤ s.client.last_nonce
  kept : All (λ n. (seed < n) × (n ≤ s.client.last_persisted)) s.returns
  stored : (s.client.last_persisted ≤ seed) ⊎ (s.stored ≡ some s.client.last_persisted)

update-PhaseAbove :
    (seed : ℕ) (f : ℕ → Phase) (t : ℕ) (p : Phase)
    → ((u : ℕ) → PhaseAbove seed (f u))
    → PhaseAbove seed p
    → (u : ℕ) → PhaseAbove seed (update f t p u)
update-PhaseAbove seed f t p h k u = elim (Bool-cases (t == u)) [
  | inl e ↦ rw e k
  | inr e ↦ rw e (h u)
]

module _ (seed : ℕ) where
  phase-Durable :
      (s : System) (t : ℕ) (p : Phase)
      → Durable seed s
      → PhaseAbove seed p
      → Durable seed (record s { phase = update s.phase t p })
  phase-Durable s t p h k = record {
    has_store = h.has_store;
    phases = update-PhaseAbove seed s.phase t p h.phases k;
    seeded = h.seeded;
    kept = h.kept;
    stored = h.stored;
  }

  read_clock-Durable :
      (s : System) (t now : ℕ) (p : Phase) → Durable seed s → Durable seed (read_clock t now p s)
  unfolding read_clock
  read_clock-Durable s t now fresh h = phase-Durable s t (timed now) h tt
  read_clock-Durable s t now (returned n) h = phase-Durable s t (timed now) h tt
  read_clock-Durable s t now _ h = h

  load_last-Durable :
      (s : System) (t : ℕ) (p : Phase) → Durable seed s → Durable seed (load_last t p s)
  unfolding load_last
  load_last-Durable s t (timed now) h = phase-Durable s t (loaded now s.client.last_nonce) h tt
  load_last-Durable s t _ h = h

  compare_and_swap-Durable :
      (s : System) (t : ℕ) (p : Phase)
      → Durable seed s
      → s.client.last_nonce + 1 < 2 ^ 64
      → Durable seed (compare_and_swap t p s)
  unfolding compare_and_swap
  compare_and_swap-Durable s t (loaded now prev) h room =
      elim (Bool-cases (s.client.last_nonce == prev)) [
        | inl e ↦
            let same : s.client.last_nonce ≡ prev = ground arith in
            let up : prev < next_after now prev = next_after-lt now prev (omega arith) in
            rw e (record {
              has_store = h.has_store;
              phases = update-PhaseAbove seed s.phase t (won _) h.phases (omega (arith, h.seeded));
              seeded = omega (arith, h.seeded);
              kept = h.kept;
              stored = h.stored;
            })
        | inr e ↦ rw e (phase-Durable s t (timed now) h tt)
      ]
  compare_and_swap-Durable s t _ h room = h

  -- A nonce that the client persists is above the seed, and the store holds it or a later one.
  persist_nonce-kept :
      (s : System) (n : ℕ)
      → Durable seed s
      → seed < n
      → let s' = persist_nonce true n s in
        (n ≤ s'.client.last_persisted)
        × (s.client.last_persisted ≤ s'.client.last_persisted)
        × ((s'.client.last_persisted ≤ seed) ⊎ (s'.stored ≡ some s'.client.last_persisted))
        × (s'.client.has_store ≡ true)
        × (s'.client.last_nonce ≡ s.client.last_nonce)
        × (s'.phase ≡ s.phase)
        × (s'.returns ≡ s.returns)
  unfolding persist_nonce
  persist_nonce-kept s n h k = ground (arith, h.has_store, h.stored)

  finish-Durable :
      (s : System) (t : ℕ) (p : Phase)
      → Durable seed s
      → PhaseAbove seed p
      → Durable seed (finish t true p s)
  unfolding finish
  finish-Durable s t (won n) h k =
      let (here, up, st, has, last, ph, rs) = persist_nonce-kept s n h k in
      let s' = persist_nonce true n s in
      record {
        has_store = has;
        phases = update-PhaseAbove seed s'.phase t (returned n) (λ u. rw ph (h.phases u)) tt;
        seeded = rw last h.seeded;
        kept = (
          (k, here),
          rw rs (
              All_mono _ (λ m. (seed < m) × (m ≤ s'.client.last_persisted)) s.returns
                (λ m p. omega arith) h.kept),
        );
        stored = st;
      }
  finish-Durable s t _ h k = h

  step-Durable :
      (s : System) (m : Move)
      → Durable seed s
      → s.client.last_nonce + 1 < 2 ^ 64
      → Sets (m ∷ [])
      → Durable seed (step s m)
  unfolding step
  step-Durable s (clock t now) h room k = read_clock-Durable s t now (s.phase t) h
  step-Durable s (load t) h room k = load_last-Durable s t (s.phase t) h
  step-Durable s (swap t) h room k = compare_and_swap-Durable s t (s.phase t) h room
  step-Durable s (persist t b) h room k = rw k.0 (finish-Durable s t (s.phase t) h (h.phases t))

run-Durable :
    (seed top used : ℕ) (s : System) (ms : List Move)
    → Growing seed top used s
    → Durable seed s
    → top + used + length ms < 2 ^ 64
    → Readings top ms
    → Sets ms
    → Durable seed (run s ms)
unfolding run
run-Durable seed top used s [] g h room k o = h
run-Durable seed top used s (m ∷ ms) g h room (k, ks) (o, os) =
    run-Durable seed top (suc used) (step s m) ms
      (step-Growing seed top used s m g (omega arith) (k, tt))
      (step-Durable seed s m h (omega (arith, g.bounded)) (o, tt)) (omega arith) ks os

-- The seed of a restarted client is not below what the store holds.
init_nonce_store-le :
    (now : ℕ) (o : Option ℕ) (c c' : Client) (n : ℕ)
    → init_nonce_store now (reply o) c ≡ ok c'
    → o ≡ some n
    → n ≤ c'.last_nonce
unfolding init_nonce_store
init_nonce_store-le now o c c' n h e = ground arith

returned-le :
    (seed now : ℕ) (s : System) (c c' : Client)
    → Durable seed s
    → init_nonce_store now (reply s.stored) c ≡ ok c'
    → All (λ n. n ≤ c'.last_nonce) s.returns
returned-le seed now s c c' h i =
    All_mono _ _ s.returns
      (λ n p. elim h.stored [
        | inl low ↦ omega arith
        | inr e ↦ omega (arith, init_nonce_store-le now s.stored c c' s.client.last_persisted i e)
      ])
      h.kept

All_swap :
    (b : ℕ) (xs ys : List ℕ)
    → All (λ n. n ≤ b) xs
    → All (λ m. b < m) ys
    → All (λ m. All (λ n. n < m) xs) ys
All_swap b xs [] p q = tt
All_swap b xs (y ∷ ys) p (q, qs) = (All_mono _ _ xs (λ n k. omega arith) p, All_swap b xs ys p qs)

-- Run a seeded client with a nonce store, in any interleaving in which every `Set` succeeds, and
-- restart: seed a client from what the store then holds, and run that one too. While the nonces
-- stay below 2^64, each nonce that the second run hands out is above all that the first returned.
pub restart_above_returns :
    (c c₀ c' : Client) (stored : Option ℕ) (top top' now : ℕ) (ms ms' : List Move)
    → c.has_store ≡ true
    → c.last_persisted ≡ c.last_nonce
    → c.last_nonce ≤ top
    → top + length ms < 2 ^ 64
    → Readings top ms
    → Sets ms
    → init_nonce_store now (reply (run (start c stored) ms).stored) c₀ ≡ ok c'
    → c'.last_nonce ≤ top'
    → top' + length ms' < 2 ^ 64
    → Readings top' ms'
    → All
        (λ m. All (λ n. n < m) (run (start c stored) ms).returns)
        (run (start c' (run (start c stored) ms).stored) ms').issued
restart_above_returns c c₀ c' stored top top' now ms ms' has per low room k o i low' room' k' =
    let s = run (start c stored) ms in
    let d : Durable c.last_nonce s =
      run-Durable c.last_nonce top 0 (start c stored) ms (start-Growing c stored top low)
        (record {
          has_store = has;
          phases = λ t. tt;
          seeded = omega arith;
          kept = tt;
          stored = inl (omega arith);
        })
        (omega arith) k o in
    All_swap c'.last_nonce s.returns _ (returned-le c.last_nonce now s c₀ c' d i)
      (issued-Descending c' s.stored top' ms' low' room' k').1
