-- ===== src/Prelude/Numerals.antt =====
-- Numbers as text: what the code uses of Go's package strconv, as a parameter, and the words of
-- `strconv.ParseBool`.
use mathlib.Core.Bool.{Bool, true, false, ◌||◌}
use mathlib.Core.Option.{Option, none, some}
use Prim.Native.String.{String}
use text.Mathlib.Text.{◌==◌ as str_eq}
use hyper_basis.Prelude.Tests.{if◌then◌else◌}
use hyper_basis.Prelude.Int.{ℤ}

pub record Numerals (F : Type 0) : Type 0 where
  -- `strconv.ParseFloat(s, 64)`; `none` is its error
  pub parse_float : String → Option F
  -- `strconv.FormatFloat(x, 'f', 0, 64)` and `strconv.FormatFloat(x, 'g', 12, 64)`
  pub format_whole : F → String
  pub format_twelve : F → String
  -- the conversions `int64(x)` and `int(x)`
  pub to_int : F → ℤ
  -- `strconv.ParseInt(s, 10, 64)` and `strconv.FormatInt(n, 10)`
  pub parse_int : String → Option ℤ
  pub format_int : ℤ → String
  -- `time.ParseDuration(s)`
  pub parse_duration : String → Option ℤ

-- `strconv.ParseBool`
abbrev pub parse_bool : String → Option Bool
parse_bool s =
    if str_eq s "1"
      || str_eq s "t"
      || str_eq s "T"
      || str_eq s "true"
      || str_eq s "TRUE"
      || str_eq s "True"
    then some true
    else if str_eq s "0"
        || str_eq s "f"
        || str_eq s "F"
        || str_eq s "false"
        || str_eq s "FALSE"
        || str_eq s "False"
    then some false
    else none
