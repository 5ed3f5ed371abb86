-- ===== src/Exec/Shared.antt =====
-- What holds when calls of one executor overlap.
use hyper_basis.Prelude.{
  ℕ, ◌≡◌, refl, sym, subst, ◌∙◌, String, Bool, true, false, ◌&&◌, ◌||◌, some, List, [], ◌∷◌, arith,
  str_eq, eq_iff, ◌==◌, Bool-cases, inl, inr, Option-cases,
}
use hyper_basis.Prelude.Dict.{lookup, insert, lookup-insert, str_eq-same}
use hyper_basis.Exec.Callers.{
  Stage, Pool, Turn, called, uncached_key, unsaved_key, failed, found_id, placed_id, saved_id,
  returned_id, look, ask, publish, fail, place, save, at_stage, fail_call, look_up, ask_saved,
  accept, save_id, publish_id, take_turn, take_turns,
}

-- The exchange has accepted an order with this key under this id.
unfoldable pub is_accepted : String → String → List (String × String) → Bool
is_accepted key id [] = false
is_accepted key id (entry ∷ rest) =
    (str_eq entry.0 key && str_eq entry.1 id) || is_accepted key id rest

-- The id that a stage holds.
abbrev pub StageIsHonest : String → List (String × String) → Stage → Type 0
StageIsHonest key accepted (found_id id) = is_accepted key id accepted ≡ true
StageIsHonest key accepted (placed_id id) = is_accepted key id accepted ≡ true
StageIsHonest key accepted (saved_id id) = is_accepted key id accepted ≡ true
StageIsHonest key accepted (returned_id id) = is_accepted key id accepted ≡ true
StageIsHonest key accepted _ = Unit {0}

-- Every id in the cache or in the store, and every id that a call holds or has returned, is one that the
-- exchange has given to an order with that key.
pub record IsHonest (key : ℕ → String) (p : Pool) : Type 0 where
  pub cached : (k id : String) → lookup k p.cache ≡ some id → is_accepted k id p.accepted ≡ true
  pub saved : (k id : String) → lookup k p.saved ≡ some id → is_accepted k id p.accepted ≡ true
  pub stages : (t : ℕ) → StageIsHonest (key t) p.accepted (p.stages t)

insert-accepted :
    (key id : String) (dict accepted : List (String × String))
    → ((k i : String) → lookup k dict ≡ some i → is_accepted k i accepted ≡ true)
    → is_accepted key id accepted ≡ true
    → (k i : String) → lookup k (insert key id dict) ≡ some i
    → is_accepted k i accepted ≡ true
insert-accepted key id dict accepted h new k i e = elim (Bool-cases (str_eq key k)) [
  | inl p ↦
      let held : some id ≡ some i = sym (lookup-insert key k id dict ∙ rw p refl) ∙ e in
      subst (λ j. is_accepted k j accepted ≡ true) (cc held)
        (subst (λ j. is_accepted j id accepted ≡ true) ((eq_iff key k).0 p) new)
  | inr p ↦ h k i (sym (lookup-insert key k id dict ∙ rw p refl) ∙ e)
]

module _ (key : ℕ → String) where
  at_stage-stages :
      (t : ℕ) (stage : Stage) (p : Pool)
      → ((u : ℕ) → StageIsHonest (key u) p.accepted (p.stages u))
      → StageIsHonest (key t) p.accepted stage
      → (u : ℕ) → StageIsHonest (key u) p.accepted ((at_stage t stage p).stages u)
  at_stage-stages t stage p h new u = elim (Bool-cases (t == u)) [
    | inl e ↦
        let same : t ≡ u = ground (arith, e) in
        rw e (subst (λ v. StageIsHonest (key v) p.accepted stage) same new)
    | inr e ↦ rw e (h u)
  ]

  -- A step that changes nothing but the stage of its caller.
  at_stage-IsHonest :
      (t : ℕ) (stage : Stage) (p : Pool)
      → IsHonest key p
      → StageIsHonest (key t) p.accepted stage
      → IsHonest key (at_stage t stage p)
  at_stage-IsHonest t stage p h new = record {
    cached = h.cached;
    saved = h.saved;
    stages = at_stage-stages t stage p h.stages new;
  }

  fail_call-IsHonest :
      (t : ℕ) (stage : Stage) (p : Pool) → IsHonest key p → IsHonest key (fail_call t stage p)
  unfolding fail_call
  fail_call-IsHonest t uncached_key p h = at_stage-IsHonest t failed p h tt
  fail_call-IsHonest t unsaved_key p h = at_stage-IsHonest t failed p h tt
  fail_call-IsHonest t _ p h = h

  look_up-IsHonest :
      (t : ℕ) (stage : Stage) (p : Pool) → IsHonest key p → IsHonest key (look_up key t stage p)
  unfolding look_up
  look_up-IsHonest t called p h = elim (Option-cases (lookup (key t) p.cache)) [
    | inl e ↦ simp e (at_stage-IsHonest t uncached_key p h tt)
    | inr (id, e) ↦ simp e (at_stage-IsHonest t (returned_id id) p h (h.cached (key t) id e))
  ]
  look_up-IsHonest t _ p h = h

  ask_saved-IsHonest :
      (t : ℕ) (stage : Stage) (p : Pool) → IsHonest key p → IsHonest key (ask_saved key t stage p)
  unfolding ask_saved
  ask_saved-IsHonest t uncached_key p h = elim (Option-cases (lookup (key t) p.saved)) [
    | inl e ↦ simp e (at_stage-IsHonest t unsaved_key p h tt)
    | inr (id, e) ↦ simp e (at_stage-IsHonest t (found_id id) p h (h.saved (key t) id e))
  ]
  ask_saved-IsHonest t _ p h = h

  more_accepted :
      (k i : String) (entry : String × String) (accepted : List (String × String))
      → is_accepted k i accepted ≡ true
      → is_accepted k i (entry ∷ accepted) ≡ true
  unfolding is_accepted
  more_accepted k i entry accepted h = ground (arith, h)

  stage_stays :
      (k : String) (entry : String × String) (accepted : List (String × String)) (stage : Stage)
      → StageIsHonest k accepted stage
      → StageIsHonest k (entry ∷ accepted) stage
  stage_stays k entry accepted (found_id id) h = more_accepted k id entry accepted h
  stage_stays k entry accepted (placed_id id) h = more_accepted k id entry accepted h
  stage_stays k entry accepted (saved_id id) h = more_accepted k id entry accepted h
  stage_stays k entry accepted (returned_id id) h = more_accepted k id entry accepted h
  stage_stays k entry accepted called h = tt
  stage_stays k entry accepted uncached_key h = tt
  stage_stays k entry accepted unsaved_key h = tt
  stage_stays k entry accepted failed h = tt

  own_accepted :
      (k i : String) (accepted : List (String × String))
      → is_accepted k i ((k, i) ∷ accepted) ≡ true
  unfolding is_accepted
  own_accepted k i accepted = ground (arith, str_eq-same k, str_eq-same i)

  accept-IsHonest :
      (t : ℕ) (id : String) (stage : Stage) (p : Pool)
      → IsHonest key p
      → IsHonest key (accept key t id stage p)
  unfolding accept
  accept-IsHonest t id unsaved_key p h =
      let entry : String × String = (key t, id) in
      let more = record p { accepted = entry ∷ p.accepted } in
      at_stage-IsHonest t (placed_id id) more
        (record {
          cached = λ k i e. more_accepted k i entry p.accepted (h.cached k i e);
          saved = λ k i e. more_accepted k i entry p.accepted (h.saved k i e);
          stages = λ u. stage_stays (key u) entry p.accepted (p.stages u) (h.stages u);
        })
        (own_accepted (key t) id p.accepted)
  accept-IsHonest t id _ p h = h

  -- The stage of a caller is honest, given what it is.
  held_id :
      (t : ℕ) (stage : Stage) (p : Pool)
      → IsHonest key p
      → p.stages t ≡ stage
      → StageIsHonest (key t) p.accepted stage
  held_id t stage p h e = subst (StageIsHonest (key t) p.accepted) e (h.stages t)

  save_id-IsHonest :
      (t : ℕ) (kept : Bool) (stage : Stage) (p : Pool)
      → IsHonest key p
      → p.stages t ≡ stage
      → IsHonest key (save_id key t kept stage p)
  unfolding save_id
  save_id-IsHonest t true (placed_id id) p h e =
      let held = held_id t (placed_id id) p h e in
      at_stage-IsHonest t (saved_id id) (record p { saved = insert (key t) id p.saved })
        (record {
          cached = h.cached;
          saved = insert-accepted (key t) id p.saved p.accepted h.saved held;
          stages = h.stages;
        })
        held
  save_id-IsHonest t false (placed_id id) p h e =
      at_stage-IsHonest t (saved_id id) p h (held_id t (placed_id id) p h e)
  save_id-IsHonest t kept _ p h e = h

  published :
      (t : ℕ) (id : String) (p : Pool)
      → IsHonest key p
      → is_accepted (key t) id p.accepted ≡ true
      → IsHonest key (record (at_stage t (returned_id id) p) { cache = insert (key t) id p.cache })
  published t id p h held =
      at_stage-IsHonest t (returned_id id) (record p { cache = insert (key t) id p.cache })
        (record {
          cached = insert-accepted (key t) id p.cache p.accepted h.cached held;
          saved = h.saved;
          stages = h.stages;
        })
        held

  publish_id-IsHonest :
      (t : ℕ) (stage : Stage) (p : Pool)
      → IsHonest key p
      → p.stages t ≡ stage
      → IsHonest key (publish_id key t stage p)
  unfolding publish_id
  publish_id-IsHonest t (found_id id) p h e = published t id p h (held_id t (found_id id) p h e)
  publish_id-IsHonest t (saved_id id) p h e = published t id p h (held_id t (saved_id id) p h e)
  publish_id-IsHonest t _ p h e = h

  take_turn-IsHonest :
      (turn : Turn) (p : Pool) → IsHonest key p → IsHonest key (take_turn key turn p)
  unfolding take_turn
  take_turn-IsHonest (look t) p h = look_up-IsHonest t (p.stages t) p h
  take_turn-IsHonest (ask t) p h = ask_saved-IsHonest t (p.stages t) p h
  take_turn-IsHonest (fail t) p h = fail_call-IsHonest t (p.stages t) p h
  take_turn-IsHonest (place t id) p h = accept-IsHonest t id (p.stages t) p h
  take_turn-IsHonest (save t kept) p h = save_id-IsHonest t kept (p.stages t) p h refl
  take_turn-IsHonest (publish t) p h = publish_id-IsHonest t (p.stages t) p h refl

  -- However calls of `PlaceOrder` on one executor overlap, every id in the cache and in the store stays
  -- one that the exchange has given to an order with that client order id, and so is every id that a
  -- call holds or returns, if this is so at first.
  pub take_turns-IsHonest :
      (turns : List Turn) (p : Pool) → IsHonest key p → IsHonest key (take_turns key turns p)
  unfolding take_turns
  take_turns-IsHonest [] p h = h
  take_turns-IsHonest (turn ∷ turns) p h =
      take_turns-IsHonest turns (take_turn key turn p) (take_turn-IsHonest turn p h)
