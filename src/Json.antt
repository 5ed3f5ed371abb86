-- ===== src/Json.antt =====
-- What encoding/json makes of a document when it decodes into `any`: `nil`, `bool`, `float64`, `string`,
-- `[]any` and `map[string]any`. The other cases of the code's type switches (`int`, `json.Number`,
-- `[]map[string]any`) never come from a document. The order of the fields stands for the order in
-- which Go goes through the map.
use hyper_basis.Prelude.{String, Bool, Option, none, some, List, [], ◌∷◌, str_eq, if◌then◌else◌}

mutual
  pub data Value (F : Type 0) : Type 0 where
    null : Value F
    bool : Bool → Value F
    num : F → Value F
    text : String → Value F
    arr : Items F → Value F
    obj : Fields F → Value F

  pub data Items (F : Type 0) : Type 0 where
    nil : Items F
    cons : Value F → Items F → Items F

  pub data Fields (F : Type 0) : Type 0 where
    end : Fields F
    field : String → Value F → Fields F → Fields F

module _ {F : Type 0} where
  abbrev pub items_list : Items F → List (Value F)
  items_list nil = []
  items_list (cons v vs) = v ∷ items_list vs

  abbrev pub field_list : Fields F → List (String × Value F)
  field_list end = []
  field_list (field k v fs) = (k, v) ∷ field_list fs

  -- `m[key]` with its second result.
  unfoldable pub get : String → Fields F → Option (Value F)
  get key end = none
  get key (field k v fs) = if str_eq k key then some v else get key fs

  -- `m[key]` without it: a missing key reads as `nil`.
  abbrev or_null : Option (Value F) → Value F
  or_null none = null
  or_null (some v) = v

  abbrev pub at : String → Fields F → Value F
  unfolding get
  at key fs = or_null (get key fs)
