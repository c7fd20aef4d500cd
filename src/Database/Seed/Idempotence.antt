-- ===== src/Database/Seed/Idempotence.antt =====
-- Seeding again changes nothing.
use fake_auth.Base.{
  ℕ, ◌+◌, String, ◌≡◌, refl, sym, inl, inr, Bool, true, ◌||◌, Option, none, some, List, [], ◌∷◌,
  ◌++◌, ◌==◌, arith, eq_refl, Bool-cases, Option-cases, All,
}
use mathlib.Core.Path.{subst}
use fake_auth.Table.{exists, exists-append}
use fake_auth.Database.{
  RoleRow, PermissionRow, ClientRow, ConnectionRow, Db, Engine, id_is, pair_is,
}
use fake_auth.Database.Seed.{
  Insert, a_user, a_role, a_permission, a_user_role, a_role_permission, a_client, a_connection,
  is_present, appended, insert_or_ignore, exec_all, role_seeds, client_seeds, seed_roles,
  seed_clients_and_connections,
}

exists-append_self :
    {A : Type 0} (p : A → Bool) (rs : List A) (r : A) → p r ≡ true → exists p (rs ++ r ∷ []) ≡ true
exists-append_self p rs r h = ground (arith, exists-append p rs r)

exists-append_keeps :
    {A : Type 0} (p : A → Bool) (rs : List A) (r : A)
    → exists p rs ≡ true
    → exists p (rs ++ r ∷ []) ≡ true
exists-append_keeps p rs r h = ground (arith, exists-append p rs r)

present-appended : (i : Insert) (db : Db) → is_present i (appended i db) ≡ true
unfolding is_present appended
present-appended (a_user r) db =
    ground (arith, exists-append_self (id_is r.id) db.users r (eq_refl r.id))
present-appended (a_role r) db =
    ground (arith, exists-append_self (λ (x : RoleRow). x.id == r.id) db.roles r (eq_refl r.id))
present-appended (a_permission r) db =
    exists-append_self (λ (x : PermissionRow). x.id == r.id) db.permissions r (eq_refl r.id)
present-appended (a_user_role u r) db =
    exists-append_self (pair_is u r) db.user_roles (u, r) (rw (eq_refl u) (eq_refl r))
present-appended (a_role_permission r p) db =
    exists-append_self (pair_is r p) db.role_permissions (r, p) (rw (eq_refl r) (eq_refl p))
present-appended (a_client r) db =
    exists-append_self (λ (x : ClientRow). x.id == r.id) db.clients r (eq_refl r.id)
present-appended (a_connection r) db =
    exists-append_self (λ (x : ConnectionRow). x.id == r.id) db.connections r (eq_refl r.id)

-- Whatever a table holds, the later one holds too.
abbrev Grows : {A : Type 0} → List A → List A → Type 0
Grows rs ss = (p : _) → exists p rs ≡ true → exists p ss ≡ true

abbrev Extends : Db → Db → Type 0
Extends db after =
    Grows db.users after.users
    × Grows db.roles after.roles
    × Grows db.permissions after.permissions
    × Grows db.user_roles after.user_roles
    × Grows db.role_permissions after.role_permissions
    × Grows db.clients after.clients
    × Grows db.connections after.connections

same_rows : {A : Type 0} (rs : List A) → Grows rs rs
same_rows rs p h = h

appended-Extends : (i : Insert) (db : Db) → Extends db (appended i db)
unfolding appended
appended-Extends (a_user r) db = (
  λ p. exists-append_keeps p _ r,
  same_rows _,
  same_rows _,
  same_rows _,
  same_rows _,
  same_rows _,
  same_rows _,
)
appended-Extends (a_role r) db = (
  same_rows _,
  λ p. exists-append_keeps p _ r,
  same_rows _,
  same_rows _,
  same_rows _,
  same_rows _,
  same_rows _,
)
appended-Extends (a_permission r) db = (
  same_rows _,
  same_rows _,
  λ p. exists-append_keeps p _ r,
  same_rows _,
  same_rows _,
  same_rows _,
  same_rows _,
)
appended-Extends (a_user_role u r) db = (
  same_rows _,
  same_rows _,
  same_rows _,
  λ p. exists-append_keeps p _ (u, r),
  same_rows _,
  same_rows _,
  same_rows _,
)
appended-Extends (a_role_permission r q) db = (
  same_rows _,
  same_rows _,
  same_rows _,
  same_rows _,
  λ p. exists-append_keeps p _ (r, q),
  same_rows _,
  same_rows _,
)
appended-Extends (a_client r) db = (
  same_rows _,
  same_rows _,
  same_rows _,
  same_rows _,
  same_rows _,
  λ p. exists-append_keeps p _ r,
  same_rows _,
)
appended-Extends (a_connection r) db = (
  same_rows _,
  same_rows _,
  same_rows _,
  same_rows _,
  same_rows _,
  same_rows _,
  λ p. exists-append_keeps p _ r,
)

either :
    (a b c d : Bool)
    → (a ≡ true → c ≡ true)
    → (b ≡ true → d ≡ true)
    → (a || b) ≡ true
    → (c || d) ≡ true
either a b c d f g h = elim (Bool-cases a) [
  | inl yes_a ↦ rw (f yes_a) refl
  | inr no_a ↦ ground (arith, g)
]

Extends-present :
    (db after : Db) (j : Insert)
    → Extends db after
    → is_present j db ≡ true
    → is_present j after ≡ true
unfolding is_present
Extends-present db after (a_user r) e h = either _ _ _ _ (e.0 _) (e.0 _) h
Extends-present db after (a_role r) e h = either _ _ _ _ (e.1 _) (e.1 _) h
Extends-present db after (a_permission r) e h = e.2 _ h
Extends-present db after (a_user_role u r) e h = e.3 _ h
Extends-present db after (a_role_permission r p) e h = e.4 _ h
Extends-present db after (a_client r) e h = e.5 _ h
Extends-present db after (a_connection r) e h = e.6 _ h

-- The row is there after the insertion, and what was there stays.
insert-present : (i : Insert) (db : Db) → is_present i (insert_or_ignore i db) ≡ true
unfolding insert_or_ignore
insert-present i db = elim (Bool-cases (is_present i db)) [
  | inl old ↦ rw (old, insert_or_ignore) old
  | inr new ↦ rw (new, insert_or_ignore) (present-appended i db)
]

insert-keeps :
    (i j : Insert) (db : Db) → is_present j db ≡ true → is_present j (insert_or_ignore i db) ≡ true
unfolding insert_or_ignore
insert-keeps i j db h = elim (Bool-cases (is_present i db)) [
  | inl old ↦ rw (old, insert_or_ignore) h
  | inr new ↦ rw (new, insert_or_ignore) (Extends-present db _ j (appended-Extends i db) h)
]

insert-known : (i : Insert) (db : Db) → is_present i db ≡ true → insert_or_ignore i db ≡ db
unfolding insert_or_ignore
insert-known i db h = rw h refl

abbrev Present : Db → Insert → Type 0
Present db i = is_present i db ≡ true

exec_all-keeps :
    (engine : Engine) (n : ℕ) (is : List Insert) (j : Insert) (db : Db)
    → is_present j db ≡ true
    → is_present j (exec_all engine n is db).0 ≡ true
unfolding exec_all
exec_all-keeps engine n [] j db h = h
exec_all-keeps engine n (i ∷ is) j db h = elim (Option-cases (engine.fault n)) [
  | inr (e, failed) ↦ rw (failed, exec_all) h
  | inl fine ↦ rw (fine, exec_all) (exec_all-keeps engine (n + 1) is j _ (insert-keeps i j db h))
]

exec_all-cons :
    (engine : Engine) (n : ℕ) (i : Insert) (is : List Insert) (db : Db)
    → engine.fault n ≡ none
    → exec_all engine n (i ∷ is) db ≡ exec_all engine (n + 1) is (insert_or_ignore i db)
unfolding exec_all
exec_all-cons engine n i is db fine = rw (fine, exec_all) refl

exec_all-failed :
    (engine : Engine) (n : ℕ) (i : Insert) (is : List Insert) (db : Db) (e : String)
    → engine.fault n ≡ some e
    → (exec_all engine n (i ∷ is) db).1 ≡ some e
unfolding exec_all
exec_all-failed engine n i is db e failed = rw (failed, exec_all) refl

exec_all-Present :
    (engine : Engine) (n : ℕ) (is : List Insert) (db : Db)
    → (exec_all engine n is db).1 ≡ none
    → All (Present (exec_all engine n is db).0) is
exec_all-Present engine n [] db h = tt
exec_all-Present engine n (i ∷ is) db h = elim (Option-cases (engine.fault n)) [
  | inr (e, failed) ↦ absurd (cc (exec_all-failed engine n i is db e failed, h))
  | inl fine ↦
      let e = exec_all-cons engine n i is db fine in
      (
        rw e (exec_all-keeps engine (n + 1) is i _ (insert-present i db)),
        subst (λ (r : Db × Option String). All (Present r.0) is) (sym e)
            (exec_all-Present engine (n + 1) is _ (rw e at h)),
      )
]

All-Present :
    (db after : Db) (is : List Insert)
    → ((j : Insert) → is_present j db ≡ true → is_present j after ≡ true)
    → All (Present db) is
    → All (Present after) is
All-Present db after [] keeps h = tt
All-Present db after (i ∷ is) keeps (here, h) = (keeps i here, All-Present db after is keeps h)

exec_all-known :
    (engine : Engine) (n : ℕ) (is : List Insert) (db : Db)
    → All (Present db) is
    → (exec_all engine n is db).0 ≡ db
unfolding exec_all
exec_all-known engine n [] db h = refl
exec_all-known engine n (i ∷ is) db (here, h) = elim (Option-cases (engine.fault n)) [
  | inr (e, failed) ↦ rw (failed, exec_all) refl
  | inl fine ↦ rw (fine, exec_all, insert-known i db here) (exec_all-known engine (n + 1) is db h)
]

-- Seeding the roles and permissions, or the clients and connections, once more after it has
-- succeeded changes nothing, whatever the engine answers the second time.
pub seeding_is_idempotent :
    (engine again : Engine) (db : Db)
    → (seed_roles engine db).1 ≡ none
    → let after = (seed_roles engine db).0 in
      (seed_clients_and_connections engine after).1 ≡ none
      → let seeded = (seed_clients_and_connections engine after).0 in
        ((seed_roles again seeded).0 ≡ seeded)
        × ((seed_clients_and_connections again seeded).0 ≡ seeded)
unfolding seed_roles seed_clients_and_connections
seeding_is_idempotent engine again db roles clients =
    let first = (exec_all engine 0 role_seeds db).0 in
    let second = (exec_all engine 0 client_seeds first).0 in
    let kept =
      All-Present first second role_seeds
        (λ (j : Insert). exec_all-keeps engine 0 client_seeds j first)
        (exec_all-Present engine 0 role_seeds db roles) in
    (
      exec_all-known again 0 role_seeds second kept,
      exec_all-known again 0 client_seeds second
          (exec_all-Present engine 0 client_seeds first clients),
    )
