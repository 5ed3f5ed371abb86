-- ===== src/Nonce/Race.antt =====
-- Concurrent calls of `nextNonce`: whatever the interleaving, the nonces grow.
use hyper_basis.Prelude.{
  ℕ, suc, ◌+◌, ◌^◌, ◌≤◌, ◌<◌, ◌≡◌, refl, sym, subst, inl, inr, Bool, Option, List, [], ◌∷◌, arith,
  length, All, All_mono, ◌==◌, Bool-cases,
}
use native.Mathlib.Nat.{add-zero, add-suc, suc-add}
use hyper_basis.Nonce.{
  Client, Phase, System, Move, fresh, timed, loaded, won, returned, clock, load, swap, persist,
  next_after, read_clock, load_last, compare_and_swap, finish, persist_nonce, update, step, run,
  start,
}

-- The newest nonce comes first, and each is above all the older ones.
abbrev pub Descending : List ℕ → Type 0
Descending [] = Unit
Descending (n ∷ ns) = All (λ m. m < n) ns × Descending ns

-- No reading of the clock is above `top`.
abbrev pub Readings : ℕ → List Move → Type 0
Readings top = All λ m. elim m [ clock t now ↦ now ≤ top | _ ↦ Unit {0} ]

abbrev pub PhaseBelow : ℕ → Phase → Type 0
PhaseBelow top (timed now) = now ≤ top
PhaseBelow top (loaded now prev) = now ≤ top
PhaseBelow top _ = Unit

-- `used` moves have been made since the seed.
pub record Growing (seed top used : ℕ) (s : System) : Type 0 where
  pub bounded : s.client.last_nonce ≤ top + used
  pub phases : (t : ℕ) → PhaseBelow top (s.phase t)
  pub newest : All (λ n. n ≤ s.client.last_nonce) s.issued
  pub above : All (λ n. seed < n) s.issued
  pub seeded : seed ≤ s.client.last_nonce
  pub descending : Descending s.issued

pub next_after-lt : (now prev : ℕ) → prev + 1 < 2 ^ 64 → prev < next_after now prev
unfolding next_after
next_after-lt now prev h = ground arith

next_after-le :
    (now prev top used : ℕ) → now ≤ top → prev ≤ top + used → next_after now prev ≤ top + suc used
unfolding next_after
next_after-le now prev top used p q = ground arith

update-PhaseBelow :
    (top : ℕ) (f : ℕ → Phase) (t : ℕ) (p : Phase)
    → ((u : ℕ) → PhaseBelow top (f u))
    → PhaseBelow top p
    → (u : ℕ) → PhaseBelow top (update f t p u)
update-PhaseBelow top f t p h k u = elim (Bool-cases (t == u)) [
  | inl e ↦ rw e k
  | inr e ↦ rw e (h u)
]

module _ (seed top used : ℕ) where
  -- A move that hands out no nonce keeps the invariant, if the thread's new phase is in bounds.
  quiet-Growing :
      (s : System) (c : Client) (o : Option ℕ) (f : ℕ → Phase) (rs : List ℕ)
      → Growing seed top used s
      → c.last_nonce ≡ s.client.last_nonce
      → ((u : ℕ) → PhaseBelow top (f u))
      → Growing seed top
          (suc used)
          (record { client = c; stored = o; phase = f; issued = s.issued; returns = rs })
  quiet-Growing s c o f rs h e ph = record {
    bounded = omega (arith, h.bounded);
    phases = ph;
    newest = All_mono _ _ s.issued (λ n p. omega arith) h.newest;
    above = h.above;
    seeded = omega (arith, h.seeded);
    descending = h.descending;
  }

  same-Growing : (s : System) → Growing seed top used s → Growing seed top (suc used) s
  same-Growing s h = quiet-Growing s s.client s.stored s.phase s.returns h refl h.phases

  phase-Growing :
      (s : System) (t : ℕ) (p : Phase)
      → Growing seed top used s
      → PhaseBelow top p
      → Growing seed top (suc used) (record s { phase = update s.phase t p })
  phase-Growing s t p h k =
      quiet-Growing s s.client s.stored _ s.returns h refl
        (update-PhaseBelow top s.phase t p h.phases k)

  read_clock-Growing :
      (s : System) (t now : ℕ) (p : Phase)
      → Growing seed top used s
      → now ≤ top
      → Growing seed top (suc used) (read_clock t now p s)
  unfolding read_clock
  read_clock-Growing s t now fresh h k = phase-Growing s t (timed now) h k
  read_clock-Growing s t now (returned n) h k = phase-Growing s t (timed now) h k
  read_clock-Growing s t now _ h k = same-Growing s h

  load_last-Growing :
      (s : System) (t : ℕ) (p : Phase)
      → Growing seed top used s
      → PhaseBelow top p
      → Growing seed top (suc used) (load_last t p s)
  unfolding load_last
  load_last-Growing s t (timed now) h k = phase-Growing s t (loaded now s.client.last_nonce) h k
  load_last-Growing s t _ h k = same-Growing s h

  swapped-Growing :
      (s : System) (t now prev : ℕ)
      → Growing seed top used s
      → now ≤ top
      → top + used + 1 < 2 ^ 64
      → s.client.last_nonce ≡ prev
      → Growing seed top (suc used) (record {
        client = record s.client { last_nonce = next_after now prev };
        stored = s.stored;
        phase = update s.phase t (won (next_after now prev));
        issued = next_after now prev ∷ s.issued;
        returns = s.returns;
      })
  swapped-Growing s t now prev h k room e =
      let up : prev < next_after now prev = next_after-lt now prev (omega (arith, h.bounded)) in
      let below : All (λ n. n < next_after now prev) s.issued =
        All_mono _ _ s.issued (λ n p. omega arith) h.newest in
      record {
        bounded = next_after-le now prev top used k (omega (arith, h.bounded));
        phases = update-PhaseBelow top s.phase t (won _) h.phases tt;
        newest = (omega arith, All_mono _ _ s.issued (λ n p. omega arith) below);
        above = (omega (arith, h.seeded), h.above);
        seeded = omega (arith, h.seeded);
        descending = (below, h.descending);
      }

  compare_and_swap-Growing :
      (s : System) (t : ℕ) (p : Phase)
      → Growing seed top used s
      → PhaseBelow top p
      → top + used + 1 < 2 ^ 64
      → Growing seed top (suc used) (compare_and_swap t p s)
  unfolding compare_and_swap
  compare_and_swap-Growing s t (loaded now prev) h k room =
      elim (Bool-cases (s.client.last_nonce == prev)) [
        | inl e ↦ rw e (swapped-Growing s t now prev h k room (ground arith))
        | inr e ↦ rw e (phase-Growing s t (timed now) h k)
      ]
  compare_and_swap-Growing s t _ h k room = same-Growing s h

  persist_nonce-eqs :
      (s : System) (b : Bool) (n : ℕ)
      → ((persist_nonce b n s).client.last_nonce ≡ s.client.last_nonce)
        × ((persist_nonce b n s).issued ≡ s.issued)
        × ((persist_nonce b n s).phase ≡ s.phase)
  unfolding persist_nonce
  persist_nonce-eqs s b n = ground arith

  finish-Growing :
      (s : System) (t : ℕ) (b : Bool) (p : Phase)
      → Growing seed top used s
      → Growing seed top (suc used) (finish t b p s)
  unfolding finish
  finish-Growing s t b (won n) h =
      let (e, i, f) = persist_nonce-eqs s b n in
      let s' = persist_nonce b n s in
      subst
        (λ ns. Growing seed top (suc used) (record {
          client = s'.client;
          stored = s'.stored;
          phase = update s'.phase t (returned n);
          issued = ns;
          returns = n ∷ s'.returns;
        }))
        (sym i)
        (quiet-Growing s s'.client s'.stored _ (n ∷ s'.returns) h e
          (update-PhaseBelow top s'.phase t (returned n) (λ u. rw f (h.phases u)) tt))
  finish-Growing s t b _ h = same-Growing s h

  pub step-Growing :
      (s : System) (m : Move)
      → Growing seed top used s
      → top + used + 1 < 2 ^ 64
      → Readings top (m ∷ [])
      → Growing seed top (suc used) (step s m)
  unfolding step
  step-Growing s (clock t now) h room k = read_clock-Growing s t now (s.phase t) h k.0
  step-Growing s (load t) h room k = load_last-Growing s t (s.phase t) h (h.phases t)
  step-Growing s (swap t) h room k = compare_and_swap-Growing s t (s.phase t) h (h.phases t) room
  step-Growing s (persist t b) h room k = finish-Growing s t b (s.phase t) h

run-Growing :
    (seed top used : ℕ) (s : System) (ms : List Move)
    → Growing seed top used s
    → top + used + length ms < 2 ^ 64
    → Readings top ms
    → Growing seed top (used + length ms) (run s ms)
unfolding run
run-Growing seed top used s [] h room k = rw add-zero h
run-Growing seed top used s (m ∷ ms) h room (k, ks) =
    rw (add-suc, ← suc-add)
      (run-Growing seed top (suc used) (step s m) ms
        (step-Growing seed top used s m h (omega arith) (k, tt)) (omega arith) ks)

pub start-Growing :
    (c : Client) (stored : Option ℕ) (top : ℕ)
    → c.last_nonce ≤ top
    → Growing c.last_nonce top 0 (start c stored)
start-Growing c stored top h = record {
  bounded = omega arith;
  phases = λ t. tt;
  newest = tt;
  above = tt;
  seeded = omega arith;
  descending = tt;
}

-- Several goroutines call `nextNonce` at once, in any interleaving, from a client whose last nonce
-- is the seed. If neither the seed nor a clock reading is above `top`, and the sum of `top` and the
-- number of moves is below 2^64, the nonces are handed out in strictly growing order, and all are above
-- the seed: none is used twice.
pub issued-Descending :
    (c : Client) (stored : Option ℕ) (top : ℕ) (ms : List Move)
    → c.last_nonce ≤ top
    → top + length ms < 2 ^ 64
    → Readings top ms
    → Descending (run (start c stored) ms).issued
      × All (λ n. c.last_nonce < n) (run (start c stored) ms).issued
issued-Descending c stored top ms h room k =
    let g =
      run-Growing c.last_nonce top 0 (start c stored) ms (start-Growing c stored top h)
        (omega arith) k in
    (g.descending, g.above)
