-- ===== src/Database/Roles/Laws.antt =====
-- What the statements on roles do, and what they leave alone.
use fake_auth.Base.{String, ◌≡◌, refl, false, Option, none, some, arith, ◌==◌}
use fake_auth.Table.{exists, delete, exists-delete_self, find-delete_self}
use fake_auth.Database.{
  Role, RoleRow, Db, Engine, missing, assign_role_to_user, remove_role_from_user, block_user,
  unblock_user,
}
use fake_auth.Database.Users.{insert_user_role-users}
use fake_auth.Database.Removal.{Healthy}
use fake_auth.Database.Roles.{
  role_is, get_role_by_id, fetched_role, insert_role, create_role, update_role, delete_role,
  unless_failed,
}

module _ (engine : Engine) (db : Db) where
  pub block_user-users : (id : String) → (block_user engine id db).0.users ≡ db.users
  unfolding block_user
  block_user-users id = ground arith

  pub unblock_user-users : (id : String) → (unblock_user engine id db).0.users ≡ db.users
  unfolding unblock_user
  unblock_user-users id = ground arith

  pub assign_role-users :
      (user_id role_id : String)
      → (assign_role_to_user engine user_id role_id db).0.users ≡ db.users
  unfolding assign_role_to_user
  assign_role-users user_id role_id = insert_user_role-users (engine.fault 0) user_id role_id db

  pub remove_role-users :
      (user_id role_id : String)
      → (remove_role_from_user engine user_id role_id db).0.users ≡ db.users
  unfolding remove_role_from_user
  remove_role-users user_id role_id = ground arith

  insert_role-users :
      (o : Option String) (row : RoleRow) → (insert_role engine o row db).0.users ≡ db.users
  unfolding insert_role
  insert_role-users (some e) row = refl
  insert_role-users none row = ground arith

  pub create_role-users : (r : Role) → (create_role engine r db).0.users ≡ db.users
  unfolding create_role
  create_role-users r = insert_role-users (engine.fault 0) _

  pub update_role-users :
      (id name description : String)
      → (update_role engine id name description db).0.users ≡ db.users
  unfolding update_role
  update_role-users id name description = ground arith

  pub delete_role-users : (id : String) → (delete_role engine id db).0.users ≡ db.users
  unfolding delete_role unless_failed
  delete_role-users id = ground arith

-- The tables after a deletion that no error stops.
abbrev pub without_role : String → Db → Db
without_role id db = record db {
  roles = delete (role_is id) db.roles;
  user_roles = delete (λ p. p.1 == id) db.user_roles;
  role_permissions = delete (λ p. p.0 == id) db.role_permissions;
}

delete_role-Healthy :
    (engine : Engine) (id : String) (db : Db)
    → Healthy engine
    → delete_role engine id db ≡ (without_role id db, none)
unfolding delete_role unless_failed
delete_role-Healthy engine id db h =
    rw (h.2, delete_role) (rw (h.1, unless_failed) (rw (h.0, unless_failed) refl))

-- After a deletion that no error of the engine stops, the role is not found, no user has it, and no
-- permission belongs to it.
pub delete_role_lem :
    (engine reading : Engine) (id : String) (db : Db)
    → Healthy engine
    → reading.fault 0 ≡ none
    → let after = (delete_role engine id db).0 in
      (get_role_by_id reading id after ≡ missing)
      × (exists (λ p. p.1 == id) after.user_roles ≡ false)
      × (exists (λ p. p.0 == id) after.role_permissions ≡ false)
unfolding get_role_by_id fetched_role
delete_role_lem engine reading id db h answers =
    rw (delete_role-Healthy engine id db h, answers, find-delete_self (role_is id) db.roles)
      (refl, exists-delete_self _ db.user_roles, exists-delete_self _ db.role_permissions)
