-- ===== src/Dict.antt =====
-- Go's `map[string]T`, as an association list: what is written is found first, and what is deleted
-- is deleted wherever it stands. A `range` loop goes over `entries`, each key once; the order of the
-- loop, which Go leaves open, is the list's.
pub mod Range
use fake_auth.Base.{
  String, ◌≡◌, refl, Bool, ◌==◌, eq_iff, eq_refl, Option, none, some, List, [], ◌∷◌, arith,
  if◌then◌else◌, or_else,
}

abbrev pub Dict {ℓ} : Type ℓ → Type ℓ
Dict V = List (String × V)

module _ {ℓ} {V : Type ℓ} where
  -- v, ok := m[k]
  unfoldable pub get : Dict V → String → Option V
  get [] k = none
  get ((j, v) ∷ m) k = if j == k then some v else get m k

  -- delete(m, k)
  unfoldable pub remove : Dict V → String → Dict V
  remove [] k = []
  remove ((j, v) ∷ m) k = let rest = remove m k in if j == k then rest else (j, v) ∷ rest

  -- m[k] = v
  unfoldable pub put : Dict V → String → V → Dict V
  unfolding remove
  put m k v = (k, v) ∷ remove m k

  -- The pairs that a `range` loop visits.
  unfoldable pub entries : Dict V → List (String × V)
  unfolding remove
  entries [] = []
  entries ((k, v) ∷ m) = (k, v) ∷ remove (entries m) k

  pub get-remove :
      (m : Dict V) (k j : String) → get (remove m k) j ≡ (if k == j then none else get m j)
  unfolding get remove
  get-remove [] k j = ground arith
  get-remove ((i, v) ∷ m) k j = ground (arith, get-remove m k j, eq_iff i k, eq_iff i j, eq_iff k j)

  pub get-put :
      (m : Dict V) (k j : String) (v : V) → get (put m k v) j ≡ (if k == j then some v else get m j)
  unfolding get put
  get-put m k j v = ground (arith, get-remove m k j)

  pub get-put_self : (m : Dict V) (k : String) (v : V) → get (put m k v) k ≡ some v
  get-put_self m k v = ground (arith, get-put m k k v, eq_refl k)

  pub get-remove_self : (m : Dict V) (k : String) → get (remove m k) k ≡ none
  get-remove_self m k = ground (arith, get-remove m k k, eq_refl k)

  -- A range loop sees what is in the map, and no more.
  pub get-entries : (m : Dict V) (k : String) → get (entries m) k ≡ get m k
  unfolding get entries
  get-entries [] k = refl
  get-entries ((j, v) ∷ m) k = ground (arith, get-entries m k, get-remove (entries m) j k)

-- m[k] of a map of strings: the empty string where the key is missing.
unfoldable pub text_at : Dict String → String → String
unfolding get
text_at m k = or_else (get m k) ""

pub ruleset dict_laws = (get-remove, get-put, get-put_self, get-remove_self, get-entries)
