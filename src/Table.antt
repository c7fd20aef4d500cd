-- ===== src/Table.antt =====
-- The SQL statements of internal/store/sqlite.go on a table, which is the list of its rows in the
-- order in which they were inserted: selection, deletion, update and insertion.
use fake_auth.Base.{
  String, ◌≡◌, refl, sym, ap, ◌≢◌, inl, inr, Bool, true, false, ◌||◌, Option, none, some, List, [],
  ◌∷◌, ◌++◌, arith, if◌then◌else◌, ◌==◌, eq_iff, Bool-cases,
}

module _ {ℓ} {A : Type ℓ} where
  -- The first row that meets the condition: SELECT … WHERE on a unique column.
  unfoldable pub find : (A → Bool) → List A → Option A
  find p [] = none
  find p (r ∷ rs) = let rest = find p rs in if p r then some r else rest

  -- Whether there is one.
  unfoldable pub exists : (A → Bool) → List A → Bool
  exists p [] = false
  exists p (r ∷ rs) = p r || exists p rs

  -- SELECT … WHERE
  unfoldable pub select : (A → Bool) → List A → List A
  select p [] = []
  select p (r ∷ rs) = let rest = select p rs in if p r then r ∷ rest else rest

  -- DELETE FROM … WHERE
  unfoldable pub delete : (A → Bool) → List A → List A
  delete p [] = []
  delete p (r ∷ rs) = let rest = delete p rs in if p r then rest else r ∷ rest

  -- UPDATE … SET … WHERE
  unfoldable pub update : (A → Bool) → (A → A) → List A → List A
  update p f [] = []
  update p f (r ∷ rs) = (if p r then f r else r) ∷ update p f rs

  pub find-append :
      (p : A → Bool) (rs : List A) (r : A)
      → find p rs ≡ none
      → find p (rs ++ r ∷ []) ≡ (if p r then some r else none)
  unfolding find
  find-append p [] r h = refl
  find-append p (x ∷ rs) r h = elim (Bool-cases (p x)) [
    | inl hit ↦ cc (rw hit at h)
    | inr miss ↦ rw miss (find-append p rs r (rw miss at h))
  ]

  pub find-append_other :
      (p : A → Bool) (rs : List A) (r : A) → p r ≡ false → find p (rs ++ r ∷ []) ≡ find p rs
  unfolding find
  find-append_other p [] r h = rw h refl
  find-append_other p (x ∷ rs) r h =
      ap (λ (o : Option A). if p x then some x else o) (find-append_other p rs r h)

  pub find-eq-none_of_exists : (p : A → Bool) (rs : List A) → exists p rs ≡ false → find p rs ≡ none
  unfolding find exists
  find-eq-none_of_exists p [] h = refl
  find-eq-none_of_exists p (x ∷ rs) h = ground (arith, find-eq-none_of_exists p rs)

  pub find-delete_self : (p : A → Bool) (rs : List A) → find p (delete p rs) ≡ none
  unfolding find delete
  find-delete_self p [] = refl
  find-delete_self p (x ∷ rs) = elim (Bool-cases (p x)) [
    | inl hit ↦ rw hit (find-delete_self p rs)
    | inr miss ↦ rw (miss, miss) (find-delete_self p rs)
  ]

  -- A condition that no deleted row meets.
  pub find-delete_other :
      (p q : A → Bool) (rs : List A)
      → ((r : A) → p r ≡ true → q r ≡ false)
      → find q (delete p rs) ≡ find q rs
  unfolding find delete
  find-delete_other p q [] apart = refl
  find-delete_other p q (x ∷ rs) apart = elim (Bool-cases (p x)) [
    | inl hit ↦ rw (hit, apart x hit) (find-delete_other p q rs apart)
    | inr miss ↦
        rw miss (ap (λ (o : Option A). if q x then some x else o) (find-delete_other p q rs apart))
  ]

module _ {ℓ} {A : Type ℓ} where
  pub exists-delete_self : (p : A → Bool) (rs : List A) → exists p (delete p rs) ≡ false
  unfolding exists delete
  exists-delete_self p [] = refl
  exists-delete_self p (x ∷ rs) = elim (Bool-cases (p x)) [
    | inl hit ↦ rw hit (exists-delete_self p rs)
    | inr miss ↦ rw (miss, miss) (exists-delete_self p rs)
  ]

  pub exists-delete_other :
      (p q : A → Bool) (rs : List A)
      → ((r : A) → p r ≡ true → q r ≡ false)
      → exists q (delete p rs) ≡ exists q rs
  unfolding exists delete
  exists-delete_other p q [] apart = refl
  exists-delete_other p q (x ∷ rs) apart = elim (Bool-cases (p x)) [
    | inl hit ↦ rw (hit, apart x hit) (exists-delete_other p q rs apart)
    | inr miss ↦ rw miss (ap (◌||◌ (q x)) (exists-delete_other p q rs apart))
  ]

  pub exists-append :
      (q : A → Bool) (rs : List A) (r : A) → exists q (rs ++ r ∷ []) ≡ (exists q rs || q r)
  unfolding exists
  exists-append q [] r = ground arith
  exists-append q (x ∷ rs) r = ground (arith, exists-append q rs r)

-- No two rows have the same key.
module _ {ℓ} {A : Type ℓ} (key : A → String) where
  abbrev pub has_key : String → A → Bool
  has_key k r = key r == k

  abbrev pub Fresh : String → List A → Type 0
  Fresh k [] = Unit
  Fresh k (r ∷ rs) = (key r ≢ k) × Fresh k rs

  abbrev pub IsUnique : List A → Type 0
  IsUnique [] = Unit
  IsUnique (r ∷ rs) = Fresh (key r) rs × IsUnique rs

  pub Fresh-exists : (k : String) (rs : List A) → exists (has_key k) rs ≡ false → Fresh k rs
  unfolding exists
  Fresh-exists k [] h = tt
  Fresh-exists k (r ∷ rs) h = ground (arith, eq_iff (key r) k, Fresh-exists k rs)

  Fresh-append :
      (k : String) (rs : List A) (r : A) → Fresh k rs → key r ≢ k → Fresh k (rs ++ r ∷ [])
  Fresh-append k [] r h apart = (apart, tt)
  Fresh-append k (x ∷ rs) r (here, h) apart = (here, Fresh-append k rs r h apart)

  pub IsUnique-append :
      (rs : List A) (r : A) → IsUnique rs → Fresh (key r) rs → IsUnique (rs ++ r ∷ [])
  IsUnique-append [] r u h = (tt, tt)
  IsUnique-append (x ∷ rs) r (fresh, u) (apart, h) =
      (Fresh-append (key x) rs r fresh (λ e. apart (sym e)), IsUnique-append rs r u h)

  Fresh-delete : (k : String) (p : A → Bool) (rs : List A) → Fresh k rs → Fresh k (delete p rs)
  unfolding delete
  Fresh-delete k p [] h = tt
  Fresh-delete k p (r ∷ rs) (here, h) = elim (Bool-cases (p r)) [
    | inl hit ↦ rw hit (Fresh-delete k p rs h)
    | inr miss ↦ rw miss (here, Fresh-delete k p rs h)
  ]

  pub IsUnique-delete : (p : A → Bool) (rs : List A) → IsUnique rs → IsUnique (delete p rs)
  unfolding delete
  IsUnique-delete p [] u = tt
  IsUnique-delete p (r ∷ rs) (fresh, u) = elim (Bool-cases (p r)) [
    | inl hit ↦ rw hit (IsUnique-delete p rs u)
    | inr miss ↦ rw miss (Fresh-delete (key r) p rs fresh, IsUnique-delete p rs u)
  ]
