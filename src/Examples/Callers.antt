-- ===== src/Examples/Callers.antt =====
-- Overlapping calls of one executor at concrete inputs.
use hyper_basis.Prelude.{ℕ, ◌≡◌, refl, String, true, List, [], ◌∷◌}
use hyper_basis.Prelude.Dict.{lookup}
use hyper_basis.Exec.Callers.{
  Pool, Turn, called, look, ask, place, save, publish, look_up, ask_saved, accept, take_turn,
  take_turns,
}
use hyper_basis.Exec.Shared.{IsHonest, take_turns-IsHonest}
use hyper_basis.Exec.Served.{take_turns-served}

abbrev one_key : ℕ → String
one_key t = "cloid:1"

abbrev fresh_pool : Pool
fresh_pool = record { cache = []; saved = []; stages = λ t. called; accepted = [] }

abbrev one_call : List Turn
one_call = look 0 ∷ ask 0 ∷ place 0 "7" ∷ save 0 true ∷ publish 0 ∷ []

abbrev two_calls : List Turn
two_calls = look 0 ∷ look 1 ∷ ask 0 ∷ ask 1 ∷ place 0 "7" ∷ place 1 "8" ∷ []

-- Two calls with one client order id that both look before either has published both place an order.
placed_twice :
    (take_turns one_key two_calls fresh_pool).accepted ≡ ("cloid:1", "8") ∷ ("cloid:1", "7") ∷ []
unfolding take_turns take_turn look_up ask_saved accept lookup
placed_twice = refl

take_turns-IsHonest_example : IsHonest one_key (take_turns one_key one_call fresh_pool)
unfolding lookup
take_turns-IsHonest_example =
    take_turns-IsHonest one_key one_call fresh_pool (record {
      cached = λ k id e. absurd (cc e);
      saved = λ k id e. absurd (cc e);
      stages = λ t. tt;
    })

abbrev cached_pool : Pool
cached_pool = record {
  cache = ("cloid:1", "7") ∷ [];
  saved = [];
  stages = λ t. called;
  accepted = ("cloid:1", "7") ∷ [];
}

take_turns-served_example :
    take_turn one_key (place 1 "9") (take_turns one_key two_calls cached_pool)
    ≡ take_turns one_key two_calls cached_pool
unfolding lookup
take_turns-served_example = take_turns-served one_key 1 two_calls "9" cached_pool refl "7" refl
