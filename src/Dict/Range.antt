-- ===== src/Dict/Range.antt =====
-- Loops over a map that delete entries.
use fake_auth.Base.{
  String, ◌≡◌, refl, Bool, false, ◌||◌, ◌&&◌, ◌==◌, eq_iff, Option, none, some, List, [], ◌∷◌,
  arith, if◌then◌else◌,
}
use fake_auth.Dict.{Dict, get, remove, put, entries, get-remove, get-put}

module _ {ℓ} {V : Type ℓ} (dead : V → Bool) where
  -- for k, v := range m { if dead(v) { delete(m, k) } }, over the pairs still to visit.
  unfoldable pub sweep_from : List (String × V) → Dict V → Dict V
  sweep_from [] m = m
  sweep_from ((k, v) ∷ es) m = sweep_from es (if dead v then remove m k else m)

  unfoldable pub sweep : Dict V → Dict V
  unfolding sweep_from entries
  sweep m = sweep_from (entries m) m

  -- Whether the pairs hold a dead value under the key.
  abbrev pub doomed : List (String × V) → String → Bool
  doomed [] j = false
  doomed ((k, v) ∷ es) j = (k == j && dead v) || doomed es j

  pub get-sweep_from :
      (es : List (String × V)) (m : Dict V) (j : String)
      → get (sweep_from es m) j ≡ (if doomed es j then none else get m j)
  unfolding sweep_from
  get-sweep_from [] m j = refl
  get-sweep_from ((k, v) ∷ es) m j =
      ground (arith, get-sweep_from es (if dead v then remove m k else m) j, get-remove m k j)

  pub doomed-remove :
      (es : List (String × V)) (k j : String)
      → doomed (remove es k) j ≡ (if k == j then false else doomed es j)
  unfolding remove
  doomed-remove [] k j = ground arith
  doomed-remove ((i, v) ∷ es) k j =
      ground (arith, doomed-remove es k j, eq_iff i k, eq_iff i j, eq_iff k j)

  -- A value that is kept, if it is not dead.
  abbrev pub alive : Option V → Option V
  alive none = none
  alive (some v) = if dead v then none else some v

  abbrev pub is_dead : Option V → Bool
  is_dead none = false
  is_dead (some v) = dead v

  pub doomed-entries : (m : Dict V) (j : String) → doomed (entries m) j ≡ is_dead (get m j)
  unfolding entries get
  doomed-entries [] j = refl
  doomed-entries ((k, v) ∷ m) j = ground (arith, doomed-entries m j, doomed-remove (entries m) k j)

  -- The loop deletes what is dead, and nothing else.
  pub get-sweep : (m : Dict V) (j : String) → get (sweep m) j ≡ alive (get m j)
  unfolding sweep
  get-sweep m j = ground (arith, get-sweep_from (entries m) m j, doomed-entries m j)

module _ {ℓ} {V : Type ℓ} where
  -- for k, v := range src { dst[k] = v }, over the pairs still to visit.
  unfoldable pub copy_from : List (String × V) → Dict V → Dict V
  copy_from [] dst = dst
  copy_from ((k, v) ∷ es) dst = copy_from es (put dst k v)

  unfoldable pub copy : Dict V → Dict V → Dict V
  unfolding copy_from entries
  copy src dst = copy_from (entries src) dst

  abbrev pub first_of : Option V → Option V → Option V
  first_of none d = d
  first_of (some v) d = some v

  pub first_of-none : (o : Option V) → first_of o none ≡ o
  first_of-none none = refl
  first_of-none (some v) = refl

  -- The last pair under the key.
  abbrev last_of : List (String × V) → String → Option V
  last_of [] j = none
  last_of ((k, v) ∷ es) j = first_of (last_of es j) (if k == j then some v else none)

  last_of-remove :
      (es : List (String × V)) (i j : String)
      → last_of (remove es i) j ≡ (if i == j then none else last_of es j)
  unfolding remove
  last_of-remove [] i j = ground arith
  last_of-remove ((k, v) ∷ es) i j =
      ground (arith, last_of-remove es i j, eq_iff k i, eq_iff k j, eq_iff i j)

  last_of-entries : (m : Dict V) (j : String) → last_of (entries m) j ≡ get m j
  unfolding entries get
  last_of-entries [] j = refl
  last_of-entries ((k, v) ∷ m) j =
      ground (arith, last_of-entries m j, last_of-remove (entries m) k j)

  get-copy_from :
      (es : List (String × V)) (dst : Dict V) (j : String)
      → get (copy_from es dst) j ≡ first_of (last_of es j) (get dst j)
  unfolding copy_from
  get-copy_from [] dst j = refl
  get-copy_from ((k, v) ∷ es) dst j =
      ground (arith, get-copy_from es (put dst k v) j, get-put dst k j v)

  -- The copied map wins, and the rest stays.
  pub get-copy :
      (src dst : Dict V) (j : String) → get (copy src dst) j ≡ first_of (get src j) (get dst j)
  unfolding copy
  get-copy src dst j = ground (arith, get-copy_from (entries src) dst j, last_of-entries src j)
