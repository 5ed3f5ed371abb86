-- ===== src/Prelude/Float.antt =====
-- Go's `float64`. The checker has no floating-point numbers, so the type is a parameter with the
-- operations that the code uses; a comparison is a Boolean that NaN may make false both ways.
-- `IsOrdered` holds what IEEE 754 says of the comparisons, NaN included. `Fixed` are numbers with
-- eight decimals, at which the operations run.
use Prim.Native.Nat.{ℕ, zero, suc, ◌*◌, ◌/◌, ◌^◌}
use mathlib.Core.Path.{◌≡◌}
use mathlib.Core.Bool.{Bool, true, false}
use mathlib.Core.Option.{Option, some}
use native.Mathlib.Omega.{arith}
use hyper_basis.Prelude.Int.{ℤ, pos, negsuc, floor_div, ◌+ℤ◌, ◌-ℤ◌, ◌*ℤ◌, ltb_ℤ, leb_ℤ, eqb_ℤ}

pub record Float64 (F : Type 0) : Type 0 where
  -- the literal m * 10^-e
  pub lit : ℕ → ℕ → F
  pub neg : F → F
  pub add : F → F → F
  pub sub : F → F → F
  pub mul : F → F → F
  pub div : F → F → F
  pub abs : F → F
  pub floor : F → F
  pub round : F → F
  -- `math.Pow10` at a number that is not negative
  pub pow10 : ℕ → F
  -- `strconv.ParseFloat(strconv.FormatFloat(x, 'g', 5, 64), 64)`; `none` is its error
  pub five_digits : F → Option F
  pub lt : F → F → Bool
  pub le : F → F → Bool
  pub eq : F → F → Bool

abbrev pub nought : {F : Type 0} ⦃fl : Float64 F⦄ → F
nought ⦃fl⦄ = fl.lit 0 0

pub record IsOrdered {F : Type 0} (fl : Float64 F) : Type 0 where
  pub lt_irrefl : (x : F) → fl.lt x x ≡ false
  pub lt_trans : (x y z : F) → fl.lt x y ≡ true → fl.lt y z ≡ true → fl.lt x z ≡ true
  pub lt_le_trans : (x y z : F) → fl.lt x y ≡ true → fl.le y z ≡ true → fl.lt x z ≡ true
  pub le_lt_trans : (x y z : F) → fl.le x y ≡ true → fl.lt y z ≡ true → fl.lt x z ≡ true
  pub not_lt_of_le : (x y : F) → fl.le x y ≡ true → fl.lt y x ≡ false
  pub le_of_lt : (x y : F) → fl.lt x y ≡ true → fl.le x y ≡ true
  pub le_of_eq : (x y : F) → fl.eq x y ≡ true → fl.le x y ≡ true

-- A number with eight decimals: the integer is the number times 10^8.
abbrev pub Fixed : Type 0
Fixed = ℤ

abbrev pub unit : ℕ
unit = 100_000_000

abbrev abs_ℤ : ℤ → ℤ
abs_ℤ (pos n) = pos n
abs_ℤ (negsuc n) = pos (suc n)

-- A quotient by 0 is 0 here.
abbrev quotient : ℤ → ℤ → ℤ
quotient a (pos zero) = pos 0
quotient a (pos (suc d)) = floor_div a (suc d)
quotient a (negsuc d) = floor_div (pos 0 -ℤ a) (suc d)

instance unfoldable pub fixed : Float64 Fixed
unfolding ◌+ℤ◌ ◌-ℤ◌ ◌*ℤ◌
fixed = record {
  lit = λ m e. pos (m * unit / 10 ^ e);
  neg = λ a. pos 0 -ℤ a;
  add = ◌+ℤ◌;
  sub = ◌-ℤ◌;
  mul = λ a b. floor_div (a *ℤ b) unit;
  div = λ a b. quotient (a *ℤ pos unit) b;
  abs = abs_ℤ;
  floor = λ a. floor_div a unit *ℤ pos unit;
  round = λ a. floor_div (a +ℤ pos (unit / 2)) unit *ℤ pos unit;
  pow10 = λ n. pos (10 ^ n * unit);
  five_digits = some;
  lt = ltb_ℤ;
  le = leb_ℤ;
  eq = eqb_ℤ;
}

pub Fixed-IsOrdered : IsOrdered fixed
unfolding fixed ◌+ℤ◌ ◌-ℤ◌ ◌*ℤ◌
Fixed-IsOrdered = record {
  lt_irrefl = λ x. ground arith;
  lt_trans = λ x y z p q. ground arith;
  lt_le_trans = λ x y z p q. ground arith;
  le_lt_trans = λ x y z p q. ground arith;
  not_lt_of_le = λ x y p. ground arith;
  le_of_lt = λ x y p. ground arith;
  le_of_eq = λ x y p. ground arith;
}
