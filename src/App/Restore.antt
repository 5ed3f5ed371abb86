-- ===== src/App/Restore.antt =====
-- internal/app/app.go: `restoreStrategyState`, by which the bot continues after a restart.
pub mod Saved
use Prim.Native.Char.{code}
use Prim.Native.String.{String}
use hyper_basis.Prelude.{
  ℕ, ◌-◌, Bool, true, false, not, ◌&&◌, ◌||◌, Option, none, some, List, [], ◌∷◌, reverse, str_eq,
  leb, ◌==◌, if◌then◌else◌,
}
use hyper_basis.Prelude.Float.{Float64, nought}
use hyper_basis.Prelude.Dict.{lookup}
use hyper_basis.Strategy.{State, StateMachine, set_state}
use hyper_basis.App.{Services, App, AccountState, SpotContext, StrategySnapshot}
use hyper_basis.App.Numbers.{is_exposure_flat}
use hyper_basis.App.Upkeep.{or_nought}

abbrev points : String → List ℕ
points String.[] = []
points (String.◌∷◌ c s) = code c ∷ points s

abbrev is_blank : ℕ → Bool
is_blank c = c == 32 || (leb 9 c && leb c 13)

abbrev skip_blanks : List ℕ → List ℕ
skip_blanks [] = []
skip_blanks (c ∷ cs) = let rest = skip_blanks cs in if is_blank c then rest else c ∷ cs

abbrev raised : List ℕ → List ℕ
raised [] = []
raised (c ∷ cs) = (if leb b'a' c && leb c b'z' then c - 32 else c) ∷ raised cs

abbrev same_points : List ℕ → List ℕ → Bool
same_points [] [] = true
same_points (c ∷ cs) (d ∷ ds) = c == d && same_points cs ds
same_points cs ds = false

-- `strings.ToUpper(strings.TrimSpace(raw))` on ASCII, as code points.
unfoldable pub cleaned : String → List ℕ
cleaned raw = raised (reverse (skip_blanks (reverse (skip_blanks (points raw)))))

unfoldable pub parse_strategy_state : String → State
unfolding cleaned
parse_strategy_state raw =
    let word = cleaned raw in
    if same_points word (points "ENTER")
    then State.enter
    else if same_points word (points "EXIT")
    then State.exit
    else if same_points word (points "HEDGE_OK")
    then State.hedge_ok
    else State.idle

-- The state for a saved one, by whether the exposure is flat.
abbrev pub with_exposure : Bool → State → State
with_exposure true s = State.idle
with_exposure false State.idle = State.hedge_ok
with_exposure false s = s

module _ {F E : Type 0} ⦃fl : Float64 F⦄ (sv : Services F E) where
  -- The key of the asset's balance.
  abbrev pub balance_key : String → Option SpotContext → String
  balance_key asset none = asset
  balance_key asset (some c) = if str_eq c.base "" then asset else c.base

  abbrev pub spot_balance_for_asset : String → List (String × F) → E → F
  spot_balance_for_asset asset balances e =
      if str_eq asset ""
      then nought
      else or_nought (lookup (balance_key asset (sv.spot_context asset e)) balances)

  -- Whether the exposure of the account is flat at the saved prices.
  abbrev pub restored_flat : AccountState F → StrategySnapshot F → App F → E → Bool
  restored_flat acc saved a e =
      let cfg = a.cfg.strategy in
      is_exposure_flat cfg (spot_balance_for_asset cfg.spot_asset acc.spot_balances e)
        (or_nought (lookup cfg.perp_asset acc.perp_position)) saved.spot_mid_price
        saved.perp_mid_price

  -- With no snapshot the state stays as it is.
  unfoldable pub restore_strategy_state :
      AccountState F → Option (StrategySnapshot F) → E → App F → App F
  unfolding set_state
  restore_strategy_state acc none e a = a
  restore_strategy_state acc (some saved) e a = record a {
    strategy =
        (set_state a.strategy
          (with_exposure (restored_flat acc saved a e) (parse_strategy_state saved.action)));
  }
