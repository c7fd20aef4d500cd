-- ===== src/Text.antt =====
-- The functions of Go's `strings` package that the program calls, character by character.
pub mod Laws
use Prim.Native.String
use Prim.Native.String.{[], ◌∷◌}
use mathlib.Core.List
use fake_auth.Base.{
  ℕ, zero, suc, Char, code, String, Bool, true, false, ◌||◌, Option, none, some, List, ◌==◌, same,
  is_some, or_else, if◌then◌else◌,
}

-- What is left of the second text behind the first, if it begins with it.
unfoldable pub strip : String → String → Option String
strip [] s = some s
strip (c ∷ p) [] = none
strip (c ∷ p) (d ∷ s) = if same (code c) (code d) then strip p s else none

unfoldable pub has_prefix : String → String → Bool
unfolding strip
has_prefix s p = is_some (strip p s)

unfoldable pub trim_prefix : String → String → String
unfolding strip
trim_prefix s p = or_else (strip p s) s

unfoldable pub has_suffix : String → String → Bool
has_suffix [] t = t == ""
has_suffix (c ∷ s) t = (c ∷ s) == t || has_suffix s t

unfoldable pub trim_suffix : String → String → String
trim_suffix [] t = []
trim_suffix (c ∷ s) t = if (c ∷ s) == t then "" else c ∷ trim_suffix s t

unfoldable pub contains : String → String → Bool
unfolding has_prefix
contains [] t = has_prefix [] t
contains (c ∷ s) t = has_prefix (c ∷ s) t || contains s t

-- strings.ReplaceAll(s, "-", "")
unfoldable pub remove_hyphens : String → String
remove_hyphens [] = []
remove_hyphens (c ∷ s) =
    let rest = remove_hyphens s in if same (code c) b'-' then rest else c ∷ rest

-- strings.ToUpper, over the table of unicode.ToUpper.
unfoldable pub to_upper : (Char → Char) → String → String
to_upper upper [] = []
to_upper upper (c ∷ s) = upper c ∷ to_upper upper s

-- strings.Fields: maximal runs of characters that are no white space, which `space` tells
-- (unicode.IsSpace).
fields_from : (Char → Bool) → String → String → List String
fields_from space cur [] = if cur == "" then List.[] else List.◌∷◌ cur List.[]
fields_from space cur (c ∷ s) =
    let closed = fields_from space "" s in
    let longer = fields_from space (String.◌++◌ cur (c ∷ [])) s in
    if space c then (if cur == "" then closed else List.◌∷◌ cur closed) else longer

unfoldable pub fields : (Char → Bool) → String → List String
unfolding fields_from
fields space s = fields_from space "" s

-- strings.Split(s, sep) at a separator of one character.
split_from : ℕ → String → String → List String
split_from sep cur [] = List.◌∷◌ cur List.[]
split_from sep cur (c ∷ s) =
    let closed = split_from sep "" s in
    let longer = split_from sep (String.◌++◌ cur (c ∷ [])) s in
    if same (code c) sep then List.◌∷◌ cur closed else longer

unfoldable pub split : ℕ → String → List String
unfolding split_from
split sep s = split_from sep "" s

-- The text that is given, or the default where it is empty: `if s == "" { s = d }`.
unfoldable pub or_text : String → String → String
or_text s d = if s == "" then d else s

-- a + b + …
unfoldable pub concat : List String → String
concat List.[] = ""
concat (List.◌∷◌ s ss) = String.◌++◌ s (concat ss)

-- strings.Join
unfoldable pub join : String → List String → String
join sep List.[] = ""
join sep (List.◌∷◌ s ss) = elim ss [
  | List.[] ↦ s
  | List.◌∷◌ t ts ↦ String.◌++◌ s (String.◌++◌ sep (join sep ss))
]

-- s[:n]
unfoldable pub keep : ℕ → String → String
keep n [] = ""
keep n (c ∷ s) = elim n [ zero ↦ "" | suc m ↦ c ∷ keep m s ]

-- What stands before the first separator, if the separator is in the text and not its first
-- character: `if i := strings.Index(s, sep); i > 0 { s = s[:i] }`, at a separator of one character.
cut : ℕ → String → Option String
cut sep [] = none
cut sep (c ∷ s) =
    let rest = cut sep s in
    if same (code c) sep then some "" else elim rest [ none ↦ none | some t ↦ some (c ∷ t) ]

unfoldable pub local_part : String → String
unfolding cut
local_part s = elim (cut b'@' s) [ none ↦ s | some t ↦ if t == "" then s else t ]
