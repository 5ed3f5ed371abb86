-- ===== src/Prelude/Dict.antt =====
-- Go's maps with string keys, as association lists: setting a key drops its old entry, so that a key
-- stands at most once and the length is `len(m)`. `count` says how often a key stands in a list,
-- which makes lists, sets and maps comparable; a set, `map[string]struct{}`, is the list of its keys.
use Prim.Native.Nat.{ℕ, suc, ◌+◌, ◌≤◌}
use Prim.Native.String.{String}
use mathlib.Core.Path.{◌≡◌, refl}
use mathlib.Core.Bool.{Bool, true, false}
use mathlib.Core.Option.{Option, none, some}
use mathlib.Core.List.{List, [], ◌∷◌, ◌++◌}
use native.Mathlib.Omega.{arith}
use text.Mathlib.Text.{◌==◌ as str_eq}
use text.Mathlib.TextEquality.{eq_iff}
use hyper_basis.Prelude.Tests.{ltb, if◌then◌else◌, length}

pub str_eq-same : (s : String) → str_eq s s ≡ true
str_eq-same s = ground (arith, eq_iff s s)

-- Strings in a list.

unfoldable pub count : String → List String → ℕ
count key [] = 0
count key (k ∷ ks) = let rest = count key ks in if str_eq k key then suc rest else rest

unfoldable pub has : String → List String → Bool
has key ks = ltb 0 (count key ks)

unfoldable pub remove : String → List String → List String
remove key [] = []
remove key (k ∷ ks) = let rest = remove key ks in if str_eq k key then rest else k ∷ rest

pub has_none : (key : String) (ks : List String) → has key ks ≡ false → count key ks ≡ 0
unfolding has
has_none key ks h = ground (arith, h)

pub has_some : (key : String) (ks : List String) → has key ks ≡ true → 1 ≤ count key ks
unfolding has
has_some key ks h = ground (arith, h)

pub count-append :
    (key : String) (ks js : List String) → count key (ks ++ js) ≡ count key ks + count key js
unfolding count
count-append key [] js = omega arith
count-append key (k ∷ ks) js = ground (arith, count-append key ks js)

pub count-remove :
    (key k : String) (ks : List String)
    → count key (remove k ks) ≡ (if str_eq k key then 0 else count key ks)
unfolding count remove
count-remove key k [] = ground arith
count-remove key k (j ∷ ks) =
    ground (arith, count-remove key k ks, eq_iff j k, eq_iff j key, eq_iff k key)

pub length-remove : (k : String) (ks : List String) → length (remove k ks) + count k ks ≡ length ks
unfolding count remove
length-remove k [] = refl
length-remove k (j ∷ ks) = ground (arith, length-remove k ks)

-- Maps.

module _ {ℓ} {V : Type ℓ} where
  unfoldable pub lookup : String → List (String × V) → Option V
  lookup wanted [] = none
  lookup wanted (entry ∷ rest) = if str_eq entry.0 wanted then some entry.1 else lookup wanted rest

  unfoldable pub delete : String → List (String × V) → List (String × V)
  delete key [] = []
  delete key (entry ∷ rest) =
      let kept = delete key rest in if str_eq entry.0 key then kept else entry ∷ kept

  unfoldable pub insert : String → V → List (String × V) → List (String × V)
  insert key value dict = (key, value) ∷ delete key dict

  unfoldable pub keys : List (String × V) → List String
  keys [] = []
  keys (entry ∷ rest) = entry.0 ∷ keys rest

  pub lookup-delete :
      (key wanted : String) (dict : List (String × V))
      → lookup wanted (delete key dict) ≡ (if str_eq key wanted then none else lookup wanted dict)
  unfolding lookup delete
  lookup-delete key wanted [] = ground arith
  lookup-delete key wanted ((k, v) ∷ rest) =
      ground
        (arith, lookup-delete key wanted rest, eq_iff k key, eq_iff k wanted, eq_iff key wanted)

  pub lookup-insert :
      (key wanted : String) (value : V) (dict : List (String × V))
      → lookup wanted (insert key value dict)
        ≡ (if str_eq key wanted then some value else lookup wanted dict)
  unfolding lookup insert
  lookup-insert key wanted value dict = ground (arith, lookup-delete key wanted dict)

  pub keys-delete :
      (key : String) (dict : List (String × V)) → keys (delete key dict) ≡ remove key (keys dict)
  unfolding keys delete remove
  keys-delete key [] = refl
  keys-delete key ((k, v) ∷ rest) = ground (arith, keys-delete key rest)

  pub keys-insert :
      (key : String) (value : V) (dict : List (String × V))
      → keys (insert key value dict) ≡ key ∷ remove key (keys dict)
  unfolding keys insert
  keys-insert key value dict = rw keys-delete refl

  pub length-keys : (dict : List (String × V)) → length (keys dict) ≡ length dict
  unfolding keys
  length-keys [] = refl
  length-keys (entry ∷ rest) = omega (arith, length-keys rest)
