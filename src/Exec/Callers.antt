-- ===== src/Exec/Callers.antt =====
-- Concurrent calls of `PlaceOrder` on one executor of internal/exec/executor.go. The lock is held only
-- for a look into the cache and for a write to it, so a call is a caller that takes its steps while
-- others take theirs. A caller is a number; `key` is the cache key of its order.
use hyper_basis.Prelude.{ℕ, String, Bool, Option, none, some, List, [], ◌∷◌, ◌==◌, if◌then◌else◌}
use hyper_basis.Prelude.Dict.{lookup, insert}

-- Where a call is: the ids are those that it has found or was given by the exchange.
pub data Stage : Type 0 where
  called uncached_key unsaved_key failed : Stage
  found_id placed_id saved_id returned_id : String → Stage

pub record Pool : Type 0 where
  pub cache : List (String × String)
  -- what the store holds
  pub saved : List (String × String)
  pub stages : ℕ → Stage
  -- the orders that the exchange has accepted: the key and the id
  pub accepted : List (String × String)

-- The step that a caller takes next: `place` with the id that the exchange answers, `save` with whether
-- the store keeps the id.
pub data Turn : Type 0 where
  look ask publish fail : ℕ → Turn
  place : ℕ → String → Turn
  save : ℕ → Bool → Turn

abbrev pub at_stage : ℕ → Stage → Pool → Pool
at_stage t stage p = record p { stages = λ u. if t == u then stage else p.stages u }

-- An error of the store or of the exchange ends the call.
unfoldable pub fail_call : ℕ → Stage → Pool → Pool
fail_call t uncached_key p = at_stage t failed p
fail_call t unsaved_key p = at_stage t failed p
fail_call t _ p = p

module _ (key : ℕ → String) where
  abbrev pub looked : ℕ → Option String → Pool → Pool
  looked t none p = at_stage t uncached_key p
  looked t (some id) p = at_stage t (returned_id id) p

  abbrev pub asked : ℕ → Option String → Pool → Pool
  asked t none p = at_stage t unsaved_key p
  asked t (some id) p = at_stage t (found_id id) p

  unfoldable pub look_up : ℕ → Stage → Pool → Pool
  look_up t called p = looked t (lookup (key t) p.cache) p
  look_up t _ p = p

  unfoldable pub ask_saved : ℕ → Stage → Pool → Pool
  ask_saved t uncached_key p = asked t (lookup (key t) p.saved) p
  ask_saved t _ p = p

  unfoldable pub accept : ℕ → String → Stage → Pool → Pool
  accept t id unsaved_key p = record (at_stage t (placed_id id) p) {
    accepted = (key t, id) ∷ p.accepted;
  }
  accept t id _ p = p

  unfoldable pub save_id : ℕ → Bool → Stage → Pool → Pool
  save_id t kept (placed_id id) p = record (at_stage t (saved_id id) p) {
    saved = if kept then insert (key t) id p.saved else p.saved;
  }
  save_id t kept _ p = p

  unfoldable pub publish_id : ℕ → Stage → Pool → Pool
  publish_id t (found_id id) p = record (at_stage t (returned_id id) p) {
    cache = insert (key t) id p.cache;
  }
  publish_id t (saved_id id) p = record (at_stage t (returned_id id) p) {
    cache = insert (key t) id p.cache;
  }
  publish_id t _ p = p

  unfoldable pub take_turn : Turn → Pool → Pool
  take_turn (look t) p = look_up t (p.stages t) p
  take_turn (ask t) p = ask_saved t (p.stages t) p
  take_turn (place t id) p = accept t id (p.stages t) p
  take_turn (save t kept) p = save_id t kept (p.stages t) p
  take_turn (fail t) p = fail_call t (p.stages t) p
  take_turn (publish t) p = publish_id t (p.stages t) p

  unfoldable pub take_turns : List Turn → Pool → Pool
  take_turns [] p = p
  take_turns (turn ∷ turns) p = take_turns turns (take_turn turn p)
