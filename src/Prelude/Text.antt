-- ===== src/Prelude/Text.antt =====
-- What the code uses of Go's package strings, on ASCII text.
use Prim.Native.Char.{Char, code}
use Prim.Native.Nat.{ℕ, ◌+◌}
use Prim.Native.String.{String}
use mathlib.Core.Bool.{Bool, true, false, ◌&&◌, ◌||◌}
use mathlib.Core.List.{List, [], ◌∷◌}
use mathlib.Core.Option.{Option, none, some}
use hyper_basis.Prelude.Tests.{leb, ◌==◌, if◌then◌else◌}

abbrev is_space : Char → Bool
is_space c = code c == 32 || (leb 9 (code c) && leb (code c) 13)

unfoldable pub trim_left : String → String
trim_left String.[] = String.[]
trim_left (String.◌∷◌ c s) = let rest = trim_left s in if is_space c then rest else String.◌∷◌ c s

abbrev drop_blank_end : Char → String → String
drop_blank_end c String.[] = if is_space c then String.[] else String.◌∷◌ c String.[]
drop_blank_end c s = String.◌∷◌ c s

unfoldable pub trim_right : String → String
trim_right String.[] = String.[]
trim_right (String.◌∷◌ c s) = drop_blank_end c (trim_right s)

-- `strings.TrimSpace`
unfoldable pub trim_space : String → String
unfolding trim_left trim_right
trim_space s = trim_right (trim_left s)

abbrev lower_code : ℕ → ℕ
lower_code c = if leb b'A' c && leb c b'Z' then c + 32 else c

-- The code points of `strings.ToLower(s)`: what the code compares with a lower_code-case word.
abbrev pub lowered : String → List ℕ
lowered String.[] = []
lowered (String.◌∷◌ c s) = lower_code (code c) ∷ lowered s

abbrev pub same : List ℕ → List ℕ → Bool
same [] [] = true
same (c ∷ s) (d ∷ t) = c == d && same s t
same s t = false

-- `strings.ToLower(s) == word`, for a word without capitals.
abbrev pub lower_eq : String → String → Bool
lower_eq s word = same (lowered s) (lowered word)

abbrev pub put_front : Char → List String → List String
put_front c [] = String.◌∷◌ c String.[] ∷ []
put_front c (word ∷ words) = String.◌∷◌ c word ∷ words

abbrev pub starts_blank : String → Bool
starts_blank String.[] = true
starts_blank (String.◌∷◌ c s) = is_space c

abbrev pub new_word : Char → List String → List String
new_word c words = String.◌∷◌ c String.[] ∷ words

-- `strings.Fields`
unfoldable pub words : String → List String
words String.[] = []
words (String.◌∷◌ c s) =
    let rest = words s in
    if is_space c then rest else if starts_blank s then new_word c rest else put_front c rest

abbrev pub put_key : Char → Option (String × String) → Option (String × String)
put_key c none = none
put_key c (some (key, value)) = some (String.◌∷◌ c key, value)

-- `strings.SplitN(s, "=", 2)`: the two parts, if there is a "=".
unfoldable pub cut_at_equals : String → Option (String × String)
cut_at_equals String.[] = none
cut_at_equals (String.◌∷◌ c s) =
    let rest = cut_at_equals s in if code c == 61 then some (String.[], s) else put_key c rest

-- What follows the "/" at the front, if there is one.
abbrev pub after_slash : String → Option String
after_slash String.[] = none
after_slash (String.◌∷◌ c s) = if code c == 47 then some s else none

abbrev pub drop_slash_end : Char → String → String
drop_slash_end c String.[] = if code c == 47 then String.[] else String.◌∷◌ c String.[]
drop_slash_end c s = String.◌∷◌ c s

-- `strings.TrimRight(s, "/")`
unfoldable pub trim_slashes : String → String
trim_slashes String.[] = String.[]
trim_slashes (String.◌∷◌ c s) = drop_slash_end c (trim_slashes s)
