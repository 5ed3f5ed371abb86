-- ===== src/Exec/Served.antt =====
-- A call that begins when its client order id is cached places no order, whatever other calls do.
use mathlib.Core.Bool.{false≢true}
use hyper_basis.Prelude.{
  ℕ, ◌≡◌, refl, sym, ap, ◌∙◌, String, Bool, true, false, none, some, List, [], ◌∷◌, arith, str_eq,
  ◌==◌, Bool-cases, inl, inr, Option-cases,
}
use hyper_basis.Prelude.Dict.{lookup, insert, lookup-insert}
use hyper_basis.Exec.Callers.{
  Stage, Pool, Turn, called, uncached_key, unsaved_key, failed, found_id, placed_id, saved_id,
  returned_id, look, ask, publish, fail, place, save, at_stage, fail_call, look_up, ask_saved,
  accept, save_id, publish_id, take_turn, take_turns,
}

-- A call that has not looked into the cache yet, or has returned.
abbrev pub is_quiet : Stage → Bool
is_quiet called = true
is_quiet (returned_id id) = true
is_quiet _ = false

module _ (key : ℕ → String) (t : ℕ) where
  -- The key of caller t is cached, and the caller is quiet.
  pub record IsServed (p : Pool) : Type 0 where
    pub hit : String
    pub cached : lookup (key t) p.cache ≡ some hit
    pub quiet : is_quiet (p.stages t) ≡ true

  -- The caller u is another one, since it is in the midst of its call.
  busy :
      (u : ℕ) (stage : Stage) (p : Pool)
      → IsServed p
      → p.stages u ≡ stage
      → is_quiet stage ≡ false
      → (u == t) ≡ false
  busy u stage p h e q = elim (Bool-cases (u == t)) [
    | inl same ↦
        let eq : u ≡ t = ground (arith, same) in
        let here : is_quiet (p.stages t) ≡ false =
          ap (λ v. is_quiet (p.stages v)) (sym eq) ∙ ap is_quiet e ∙ q in
        absurd (false≢true (sym here ∙ h.quiet))
    | inr other ↦ other
  ]

  at_stage-other :
      (u : ℕ) (stage : Stage) (p : Pool)
      → (u == t) ≡ false
      → IsServed p
      → IsServed (at_stage u stage p)
  at_stage-other u stage p other h = record {
    hit = h.hit;
    cached = h.cached;
    quiet = rw other h.quiet;
  }

  at_stage-quiet :
      (u : ℕ) (stage : Stage) (p : Pool)
      → is_quiet stage ≡ true
      → IsServed p
      → IsServed (at_stage u stage p)
  at_stage-quiet u stage p q h = record {
    hit = h.hit;
    cached = h.cached;
    quiet = elim (Bool-cases (u == t)) [ inl e ↦ rw e q | inr e ↦ rw e h.quiet ];
  }

  fail_call-IsServed :
      (u : ℕ) (stage : Stage) (p : Pool)
      → p.stages u ≡ stage
      → IsServed p
      → IsServed (fail_call u stage p)
  unfolding fail_call
  fail_call-IsServed u uncached_key p e h =
      at_stage-other u failed p (busy u uncached_key p h e refl) h
  fail_call-IsServed u unsaved_key p e h =
      at_stage-other u failed p (busy u unsaved_key p h e refl) h
  fail_call-IsServed u _ p e h = h

  missed : (u : ℕ) (p : Pool) → IsServed p → lookup (key u) p.cache ≡ none → (u == t) ≡ false
  missed u p h e = elim (Bool-cases (u == t)) [
    | inl same ↦
        let eq : u ≡ t = ground (arith, same) in
        let both : some h.hit ≡ none =
          sym h.cached ∙ ap (λ v. lookup (key v) p.cache) (sym eq) ∙ e in
        absurd (cc both)
    | inr other ↦ other
  ]

  look_up-IsServed :
      (u : ℕ) (stage : Stage) (p : Pool) → IsServed p → IsServed (look_up key u stage p)
  unfolding look_up
  look_up-IsServed u called p h = elim (Option-cases (lookup (key u) p.cache)) [
    | inr (id, e) ↦ simp e (at_stage-quiet u (returned_id id) p refl h)
    | inl e ↦ simp e (at_stage-other u uncached_key p (missed u p h e) h)
  ]
  look_up-IsServed u _ p h = h

  ask_saved-IsServed :
      (u : ℕ) (stage : Stage) (p : Pool)
      → p.stages u ≡ stage
      → IsServed p
      → IsServed (ask_saved key u stage p)
  unfolding ask_saved
  ask_saved-IsServed u uncached_key p e h =
      let other = busy u uncached_key p h e refl in
      elim (Option-cases (lookup (key u) p.saved)) [
        | inl q ↦ simp q (at_stage-other u unsaved_key p other h)
        | inr (id, q) ↦ simp q (at_stage-other u (found_id id) p other h)
      ]
  ask_saved-IsServed u _ p e h = h

  accept-IsServed :
      (u : ℕ) (id : String) (stage : Stage) (p : Pool)
      → p.stages u ≡ stage
      → IsServed p
      → IsServed (accept key u id stage p)
  unfolding accept
  accept-IsServed u id unsaved_key p e h =
      let s = at_stage-other u (placed_id id) p (busy u unsaved_key p h e refl) h in
      record { hit = s.hit; cached = s.cached; quiet = s.quiet }
  accept-IsServed u id _ p e h = h

  save_id-IsServed :
      (u : ℕ) (kept : Bool) (stage : Stage) (p : Pool)
      → p.stages u ≡ stage
      → IsServed p
      → IsServed (save_id key u kept stage p)
  unfolding save_id
  save_id-IsServed u kept (placed_id id) p e h =
      let s = at_stage-other u (saved_id id) p (busy u (placed_id id) p h e refl) h in
      record { hit = s.hit; cached = s.cached; quiet = s.quiet }
  save_id-IsServed u kept _ p e h = h

  published :
      (u : ℕ) (id : String) (p : Pool)
      → IsServed p
      → IsServed (record (at_stage u (returned_id id) p) { cache = insert (key u) id p.cache })
  published u id p h =
      let s = at_stage-quiet u (returned_id id) p refl h in
      elim (Bool-cases (str_eq (key u) (key t))) [
        | inl e ↦ record {
          hit = id;
          cached = lookup-insert (key u) (key t) id p.cache ∙ rw e refl;
          quiet = s.quiet;
        }
        | inr e ↦ record {
          hit = h.hit;
          cached = lookup-insert (key u) (key t) id p.cache ∙ rw e h.cached;
          quiet = s.quiet;
        }
      ]

  publish_id-IsServed :
      (u : ℕ) (stage : Stage) (p : Pool) → IsServed p → IsServed (publish_id key u stage p)
  unfolding publish_id
  publish_id-IsServed u (found_id id) p h = published u id p h
  publish_id-IsServed u (saved_id id) p h = published u id p h
  publish_id-IsServed u _ p h = h

  take_turn-IsServed : (turn : Turn) (p : Pool) → IsServed p → IsServed (take_turn key turn p)
  unfolding take_turn
  take_turn-IsServed (look u) p h = look_up-IsServed u (p.stages u) p h
  take_turn-IsServed (ask u) p h = ask_saved-IsServed u (p.stages u) p refl h
  take_turn-IsServed (fail u) p h = fail_call-IsServed u (p.stages u) p refl h
  take_turn-IsServed (place u id) p h = accept-IsServed u id (p.stages u) p refl h
  take_turn-IsServed (save u kept) p h = save_id-IsServed u kept (p.stages u) p refl h
  take_turn-IsServed (publish u) p h = publish_id-IsServed u (p.stages u) p h

  take_turns-IsServed :
      (turns : List Turn) (p : Pool) → IsServed p → IsServed (take_turns key turns p)
  unfolding take_turns
  take_turns-IsServed [] p h = h
  take_turns-IsServed (turn ∷ turns) p h =
      take_turns-IsServed turns (take_turn key turn p) (take_turn-IsServed turn p h)

  quiet_places_nothing :
      (id : String) (stage : Stage) (p : Pool) → is_quiet stage ≡ true → accept key t id stage p ≡ p
  unfolding accept
  quiet_places_nothing id called p h = refl
  quiet_places_nothing id (returned_id i) p h = refl
  quiet_places_nothing id uncached_key p h = refl
  quiet_places_nothing id unsaved_key p h = absurd (false≢true h)
  quiet_places_nothing id failed p h = refl
  quiet_places_nothing id (found_id i) p h = refl
  quiet_places_nothing id (placed_id i) p h = refl
  quiet_places_nothing id (saved_id i) p h = refl

  -- A call that begins when the client order id of its order is cached never gets an order accepted:
  -- after any turns of any calls, its turn to place an order changes nothing.
  pub take_turns-served :
      (turns : List Turn) (id : String) (p : Pool)
      → p.stages t ≡ called
      → (hit : String) → lookup (key t) p.cache ≡ some hit
      → take_turn key (place t id) (take_turns key turns p) ≡ take_turns key turns p
  unfolding take_turn
  take_turns-served turns id p h hit cached =
      let after = take_turns key turns p in
      let s =
        take_turns-IsServed turns p
          (record { hit = hit; cached = cached; quiet = ap is_quiet h }) in
      quiet_places_nothing id (after.stages t) after s.quiet
