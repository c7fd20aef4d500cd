-- ===== src/Database/Updates/Laws.antt =====
-- Updating a user keeps the table well formed.
use fake_auth.Base.{
  String, ◌≡◌, refl, sym, ap, ◌∙◌, ◌≢◌, inl, inr, false, Option, none, some, List, [], ◌∷◌, arith,
  eq_iff, Bool-cases, Option-cases,
}
use mathlib.Core.Path.{subst}
use fake_auth.Dict.{Dict}
use fake_auth.Json.{Value}
use fake_auth.Table.{find, exists, update, IsUnique, Fresh}
use fake_auth.Database.{UserRow, Db, Engine, Codec, id_is}
use fake_auth.Database.Users.{IsConsistent}
use fake_auth.Database.Updates.{
  Assignment, sets_email, sets_display_name, sets_user_metadata, sets_app_metadata, assign_all,
  assignments, clashes, set_user, unless_empty, update_user,
}

-- An update of nothing.
update-Fresh :
    (f : UserRow → UserRow) (id : String) (rs : List UserRow)
    → Fresh (λ (r : UserRow). r.id) id rs
    → update (id_is id) f rs ≡ rs
unfolding update
update-Fresh f id [] h = refl
update-Fresh f id (r ∷ rs) (apart, h) = rw (update-Fresh f id rs h) (ground (arith, eq_iff r.id id))

-- The rows of an update that leaves the ids.
module _ (f : UserRow → UserRow) (same_id : (r : UserRow) → (f r).id ≡ r.id) (id : String) where
  Fresh-update_id :
      (k : String) (rs : List UserRow)
      → Fresh (λ (r : UserRow). r.id) k rs
      → Fresh (λ (r : UserRow). r.id) k (update (id_is id) f rs)
  unfolding update
  Fresh-update_id k [] h = tt
  Fresh-update_id k (r ∷ rs) (apart, h) = elim (Bool-cases (id_is id r)) [
    | inl hit ↦ rw hit ((λ e. apart (sym (same_id r) ∙ e)), Fresh-update_id k rs h)
    | inr miss ↦ rw miss (apart, Fresh-update_id k rs h)
  ]

  IsUnique-update_id :
      (rs : List UserRow)
      → IsUnique (λ (r : UserRow). r.id) rs
      → IsUnique (λ (r : UserRow). r.id) (update (id_is id) f rs)
  unfolding update
  IsUnique-update_id [] h = tt
  IsUnique-update_id (r ∷ rs) (fresh, h) = elim (Bool-cases (id_is id r)) [
    | inl hit ↦ rw (hit, same_id r) (Fresh-update_id r.id rs fresh, IsUnique-update_id rs h)
    | inr miss ↦ rw miss (Fresh-update_id r.id rs fresh, IsUnique-update_id rs h)
  ]

-- The addresses, where the new one is nobody else's.
module _ (f : UserRow → UserRow) (id : String) where
  Fresh-update_email :
      (k : String) (row : UserRow) (rs : List UserRow)
      → find (id_is id) rs ≡ some row
      → IsUnique (λ (r : UserRow). r.id) rs
      → Fresh (λ (r : UserRow). r.email) k rs
      → (f row).email ≢ k
      → Fresh (λ (r : UserRow). r.email) k (update (id_is id) f rs)
  unfolding update find
  Fresh-update_email k row [] here unique h apart = tt
  Fresh-update_email k row (r ∷ rs) here (fresh, unique) (other, h) apart =
      elim (Bool-cases (id_is id r)) [
        | inl hit ↦
            let this : r ≡ row = cc (rw hit at here) in
            let e : r.id ≡ id = (eq_iff r.id id).0 hit in
            rw (hit, update-Fresh f id rs (subst (λ j. Fresh (λ (x : UserRow). x.id) j rs) e fresh))
              ((λ same. apart (ap (λ (x : UserRow). (f x).email) (sym this) ∙ same)), h)
        | inr miss ↦ rw miss (other, Fresh-update_email k row rs (rw miss at here) unique h apart)
      ]

  others_apart :
      (e : String) (rs : List UserRow)
      → exists (clashes id e) rs ≡ false
      → Fresh (λ (r : UserRow). r.id) id rs
      → Fresh (λ (r : UserRow). r.email) e rs
  unfolding exists
  others_apart e [] free h = tt
  others_apart e (r ∷ rs) free (apart, h) =
      (ground (arith, eq_iff r.email e, eq_iff r.id id), others_apart e rs (ground arith) h)

  IsUnique-update_email :
      (row : UserRow) (rs : List UserRow)
      → find (id_is id) rs ≡ some row
      → IsUnique (λ (r : UserRow). r.id) rs
      → IsUnique (λ (r : UserRow). r.email) rs
      → exists (clashes id (f row).email) rs ≡ false
      → IsUnique (λ (r : UserRow). r.email) (update (id_is id) f rs)
  unfolding update find exists
  IsUnique-update_email row [] here ids emails free = tt
  IsUnique-update_email row (r ∷ rs) here (fresh, ids) (apart, emails) free =
      elim (Bool-cases (id_is id r)) [
        | inl hit ↦
            let this : r ≡ row = cc (rw hit at here) in
            let e : r.id ≡ id = (eq_iff r.id id).0 hit in
            let alone = subst (λ j. Fresh (λ (x : UserRow). x.id) j rs) e fresh in
            rw (hit, update-Fresh f id rs alone)
              (
                subst (λ (x : UserRow). Fresh (λ (y : UserRow). y.email) (f x).email rs) (sym this)
                    (others_apart (f row).email rs (ground arith) alone),
                emails,
              )
        | inr miss ↦ rw miss (
          Fresh-update_email r.email row rs (rw miss at here) ids apart
              (λ same. ground (arith, eq_iff r.email (f row).email, eq_iff r.id id)),
          IsUnique-update_email row rs (rw miss at here) ids emails (ground arith),
        )
      ]

assign_all-id : (changes : List Assignment) (r : UserRow) → (assign_all changes r).id ≡ r.id
unfolding assign_all
assign_all-id [] r = refl
assign_all-id (sets_email v ∷ more) r = assign_all-id more _
assign_all-id (sets_display_name v ∷ more) r = assign_all-id more _
assign_all-id (sets_user_metadata v ∷ more) r = assign_all-id more _
assign_all-id (sets_app_metadata v ∷ more) r = assign_all-id more _

set_user-IsConsistent :
    (engine : Engine) (o : Option String) (id : String) (changes : List Assignment) (db : Db)
    → IsConsistent db
    → IsConsistent (set_user engine o id changes db).0
unfolding set_user
set_user-IsConsistent engine (some e) id changes db h = h
set_user-IsConsistent engine none id changes db h = elim (Option-cases (find (id_is id) db.users)) [
  | inl gone ↦ rw (gone, set_user) h
  | inr (row, here) ↦
      elim (Bool-cases (exists (clashes id (assign_all changes row).email) db.users)) [
        | inl clash ↦ rw (here, clash, set_user) h
        | inr free ↦
            rw (here, free, set_user)
              (
                IsUnique-update_id (assign_all changes) (assign_all-id changes) id db.users h.0,
                IsUnique-update_email (assign_all changes) id row db.users here h.0 h.1 free,
              )
      ]
]

unless_empty-IsConsistent :
    (engine : Engine) (id : String) (changes : List Assignment) (db : Db)
    → IsConsistent db
    → IsConsistent (unless_empty engine id changes db).0
unfolding unless_empty
unless_empty-IsConsistent engine id [] db h = h
unless_empty-IsConsistent engine id (a ∷ more) db h =
    set_user-IsConsistent engine (engine.fault 0) id (a ∷ more) db h

-- Updating a user, whether the statement is made, refused or fails, keeps ids and addresses unique.
pub update_user-IsConsistent :
    (engine : Engine) (codec : Codec) (id : String) (updates : Dict Value) (db : Db)
    → IsConsistent db
    → IsConsistent (update_user engine codec id updates db).0
unfolding update_user
update_user-IsConsistent engine codec id updates db h =
    unless_empty-IsConsistent engine id (assignments codec updates) db h
