-- ===== src/Database/Removal.antt =====
-- Deleting users, and blocking and unblocking them.
use fake_auth.Base.{
  String, ◌≡◌, refl, ap, ◌∙◌, ◌≢◌, inl, inr, Bool, true, false, none, List, arith, ◌==◌, eq_iff,
  Bool-cases, Option-cases, if◌then◌else◌,
}
use fake_auth.Table.{
  exists, delete, find-delete_self, find-delete_other, IsUnique-delete, exists-delete_self,
  exists-delete_other, exists-append,
}
use fake_auth.Database.{
  UserRow, Db, Engine, Codec, missing, fetched, id_is, get_by_id, delete_user, block_user,
  unblock_user, is_user_blocked,
}
use fake_auth.Database.Users.{IsConsistent}

-- None of the statements of a call fails.
abbrev pub Healthy : Engine → Type 0
Healthy engine = (engine.fault 0 ≡ none) × (engine.fault 1 ≡ none) × (engine.fault 2 ≡ none)

-- The tables after a deletion that no error stops.
abbrev pub without_user : String → Db → Db
without_user id db = record db {
  users = delete (id_is id) db.users;
  user_roles = delete (λ p. p.0 == id) db.user_roles;
  user_blocks = delete (λ b. b == id) db.user_blocks;
}

delete_user-Healthy :
    (engine : Engine) (id : String) (db : Db)
    → Healthy engine
    → delete_user engine id db ≡ (without_user id db, none)
unfolding delete_user
delete_user-Healthy engine id db h = rw (h.0, h.1, h.2, delete_user) refl

other_id :
    (id other : String) (r : UserRow) → id ≢ other → id_is id r ≡ true → id_is other r ≡ false
other_id id other r apart hit = ground (arith, eq_iff r.id id, eq_iff r.id other)

is_user_blocked-healthy :
    (reading : Engine) (id : String) (db : Db)
    → reading.fault 0 ≡ none
    → is_user_blocked reading id db ≡ (exists (λ b. b == id) db.user_blocks, none)
unfolding is_user_blocked
is_user_blocked-healthy reading id db answers = rw (answers, is_user_blocked) refl

-- After a deletion that no error of the engine stops, the user is not found, has no role and is not
-- blocked, and a user with another id is found as before.
pub delete_user_lem :
    (engine reading : Engine) (codec : Codec) (id other : String) (db : Db)
    → Healthy engine
    → reading.fault 0 ≡ none
    → id ≢ other
    → let after = (delete_user engine id db).0 in
      (get_by_id reading codec after id ≡ missing)
      × (exists (λ p. p.0 == id) after.user_roles ≡ false)
      × (is_user_blocked reading id after ≡ (false, none))
      × (get_by_id reading codec after other ≡ get_by_id reading codec db other)
unfolding get_by_id fetched
delete_user_lem engine reading codec id other db h answers apart =
    rw (delete_user-Healthy engine id db h, answers, find-delete_self (id_is id) db.users)
      (
        refl,
        exists-delete_self _ db.user_roles,
        is_user_blocked-healthy reading id _ answers
            ∙ ap (λ (b : Bool). (b, none)) (exists-delete_self (λ b. b == id) db.user_blocks),
        ap (fetched codec none) (
            find-delete_other (id_is id) (id_is other) db.users
              (λ r hit. other_id id other r apart hit)),
      )

-- Deleting a user, whatever statement fails, keeps ids and addresses unique.
pub delete_user-IsConsistent :
    (engine : Engine) (id : String) (db : Db)
    → IsConsistent db
    → IsConsistent (delete_user engine id db).0
unfolding delete_user
delete_user-IsConsistent engine id db h = elim (Option-cases (engine.fault 0)) [
  | inr (e, failed) ↦ rw (failed, delete_user) h
  | inl fine ↦ elim (Option-cases (engine.fault 1)) [
    | inr (e, failed) ↦ rw (fine, failed, delete_user) h
    | inl fine1 ↦ elim (Option-cases (engine.fault 2)) [
      | inr (e, failed) ↦ rw (fine, fine1, failed, delete_user) h
      | inl fine2 ↦
          rw (fine, fine1, fine2, delete_user)
            (IsUnique-delete _ (id_is id) db.users h.0, IsUnique-delete _ (id_is id) db.users h.1)
    ]
  ]
]

-- The list of blocks after a user is taken off it, at any user.
exists-unblocked :
    (user_id other : String) (blocks : List String)
    → exists (λ b. b == other) (delete (λ b. b == user_id) blocks)
      ≡ (if user_id == other then false else exists (λ b. b == other) blocks)
exists-unblocked user_id other blocks = elim (Bool-cases (user_id == other)) [
  | inl hit ↦
      let e = (eq_iff user_id other).0 hit in
      rw (hit, e) (exists-delete_self (λ b. b == other) blocks)
  | inr miss ↦ rw miss (
      exists-delete_other (λ b. b == user_id) (λ b. b == other) blocks
        (λ r hit. ground (arith, eq_iff r user_id, eq_iff r other, eq_iff user_id other)))
]

module _ (engine reading : Engine) (user_id other : String) (db : Db)
    (healthy : engine.fault 0 ≡ none) (answers : reading.fault 0 ≡ none) where
  -- When the engine does both statements, blocking a user blocks that user, and does not change
  -- whether another one is blocked.
  pub block_user_lem :
      is_user_blocked reading other (block_user engine user_id db).0
      ≡ (if user_id == other then (true, none) else is_user_blocked reading other db)
  unfolding block_user
  block_user_lem =
      rw (healthy, block_user, is_user_blocked-healthy reading other db answers)
        (is_user_blocked-healthy reading other _ answers
          ∙ ground (
            arith,
            exists-append (λ b. b == other) (delete (λ b. b == user_id) db.user_blocks) user_id,
            exists-unblocked user_id other db.user_blocks,
          ))

  -- When the engine does both statements, unblocking a user ends the block of that user, and does
  -- not change whether another one is blocked.
  pub unblock_user_lem :
      is_user_blocked reading other (unblock_user engine user_id db).0
      ≡ (if user_id == other then (false, none) else is_user_blocked reading other db)
  unfolding unblock_user
  unblock_user_lem =
      rw (healthy, unblock_user, is_user_blocked-healthy reading other db answers)
        (is_user_blocked-healthy reading other _ answers
          ∙ ground (arith, exists-unblocked user_id other db.user_blocks))
