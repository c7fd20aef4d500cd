-- ===== src/Json.antt =====
-- The values that Go's `interface{}` holds where the program handles JSON, and type assertions on
-- them.
use fake_auth.Base.{◌≡◌, refl, ap, ℤ, String, Bool, Option, none, some, List, [], ◌∷◌, or_else}

mutual
  pub data Value : Type 0 where
    null : Value
    bool : Bool → Value
    int : ℤ → Value
    -- a float64, by its decimal text
    float : String → Value
    str : String → Value
    obj : Fields → Value
    arr : Items → Value

  pub data Fields : Type 0 where
    end : Fields
    field : String → Value → Fields → Fields

  pub data Items : Type 0 where
    nil : Items
    cons : Value → Items → Items

-- []string as a JSON array
abbrev pub strings : List String → Items
strings [] = nil
strings (s ∷ ss) = cons (str s) (strings ss)

-- s, ok := v.(string)
abbrev pub as_string : Option Value → Option String
as_string (some (str s)) = some s
as_string _ = none

-- s, _ := v.(string)
abbrev pub string_or_empty : Option Value → String
string_or_empty v = or_else (as_string v) ""

-- A JSON object is a map.
unfoldable pub to_dict : Fields → List (String × Value)
to_dict end = []
to_dict (field k v fs) = (k, v) ∷ to_dict fs

unfoldable pub of_dict : List (String × Value) → Fields
of_dict [] = end
of_dict ((k, v) ∷ m) = field k v (of_dict m)

-- m, ok := v.(map[string]interface{})
abbrev pub as_object : Option Value → Option (List (String × Value))
as_object (some (obj fs)) = some (to_dict fs)
as_object _ = none

-- b, ok := v.(bool)
abbrev pub as_bool : Option Value → Option Bool
as_bool (some (bool b)) = some b
as_bool _ = none

pub to_dict-of_dict : (m : List (String × Value)) → to_dict (of_dict m) ≡ m
unfolding to_dict of_dict
to_dict-of_dict [] = refl
to_dict-of_dict ((k, v) ∷ m) = ap (λ r. (k, v) ∷ r) (to_dict-of_dict m)
