-- ===== src/Handlers/Api/Roles/Keeps.antt =====
-- The roles of the management API leave the users alone.
use fake_auth.Base.{
  ℕ, suc, String, Bool, ◌≡◌, refl, ◌∙◌, Option, none, some, arith, Bool-cases, Option-cases, inl,
  inr, ◌==◌, if◌then◌else◌,
}
use fake_auth.Dict.{get}
use fake_auth.Json.{Items, nil, cons}
use fake_auth.Web.{Request, RoleBody}
use fake_auth.Database.{
  Db, Role, Fetched, found, missing, broken, remove_role_from_user, assign_role_to_user,
}
use fake_auth.Database.Roles.Laws
use fake_auth.Handlers.{Env, Draws, State, engine_of}
use fake_auth.Handlers.Api.{extract_id_from_path, extract_user_id_from_path}
use fake_auth.Handlers.Api.Roles.{
  modify_roles, handle_user_roles_modify, role_from_body, role_created, handle_create_role,
  patch_role, role_updated, handle_patch_role, role_deleted, handle_delete_role, role_id_of,
  as_items,
}

module _ (env : Env) (draws : Draws) (deletes : Bool) (user_id : String) where
  step-users :
      (n : ℕ) (role_id : String) (db : Db)
      → (if role_id == ""
          then db
          else if deletes
          then (remove_role_from_user (engine_of env draws n) user_id role_id db).0
          else (assign_role_to_user (engine_of env draws n) user_id role_id db).0).users
        ≡ db.users
  step-users n role_id db = ground (
    arith,
    Laws.remove_role-users (engine_of env draws n) db user_id role_id,
    Laws.assign_role-users (engine_of env draws n) db user_id role_id,
  )

  modify_roles-users :
      (n : ℕ) (vs : Items) (db : Db)
      → (modify_roles env draws deletes user_id n vs db).users ≡ db.users
  unfolding modify_roles
  modify_roles-users n nil db = refl
  modify_roles-users n (cons v vs) db =
      modify_roles-users (suc n) vs _ ∙ step-users n (role_id_of v) db

role_created-users :
    (s : State) (ro : Role) (r : Db × Option String) → (role_created s ro r).0.db ≡ r.0
unfolding role_created
role_created-users s ro (db, none) = refl
role_created-users s ro (db, some e) = refl

role_updated-users :
    (s : State) (ro : Role) (r : Db × Option String) → (role_updated s ro r).0.db ≡ r.0
unfolding role_updated
role_updated-users s ro (db, none) = refl
role_updated-users s ro (db, some e) = refl

role_deleted-users : (s : State) (r : Db × Option String) → (role_deleted s r).0.db ≡ r.0
unfolding role_deleted
role_deleted-users s (db, none) = refl
role_deleted-users s (db, some e) = refl

module _ (env : Env) (draws : Draws) (s : State) where
  role_from_body-users :
      (o : Option RoleBody) → (role_from_body env draws s o).0.db.users ≡ s.db.users
  unfolding role_from_body
  role_from_body-users none = refl
  role_from_body-users (some b) = elim (Bool-cases (b.name == "")) [
    | inl empty ↦ rw (empty, role_from_body) refl
    | inr given ↦
        rw (given, role_from_body, role_created-users s)
          (Laws.create_role-users (engine_of env draws 0) s.db _)
  ]

  pub create_role-users : (r : Request) → (handle_create_role env draws s r).0.db.users ≡ s.db.users
  unfolding handle_create_role
  create_role-users r = role_from_body-users (env.library.decode_role r.body)

  patch_role-users :
      (id : String) (b : RoleBody) (f : Fetched Role)
      → (patch_role env draws s id b f).0.db.users ≡ s.db.users
  unfolding patch_role
  patch_role-users id b missing = refl
  patch_role-users id b (broken e) = refl
  patch_role-users id b (found ro) =
      rw (role_updated-users s) (Laws.update_role-users (engine_of env draws 1) s.db id _ _)

  pub handle_patch_role-users :
      (r : Request) (path : String) → (handle_patch_role env draws s r path).0.db.users ≡ s.db.users
  unfolding handle_patch_role
  handle_patch_role-users r path =
      elim (Bool-cases (extract_id_from_path path "/api/v2/roles/" == "")) [
        | inl empty ↦ rw (empty, handle_patch_role) refl
        | inr given ↦ elim (Option-cases (env.library.decode_role r.body)) [
          | inl bad ↦ rw (given, bad, handle_patch_role) refl
          | inr (b, decoded) ↦ rw (given, decoded, handle_patch_role) (patch_role-users _ b _)
        ]
      ]

  pub handle_delete_role-users :
      (path : String) → (handle_delete_role env draws s path).0.db.users ≡ s.db.users
  unfolding handle_delete_role
  handle_delete_role-users path =
      elim (Bool-cases (extract_id_from_path path "/api/v2/roles/" == "")) [
        | inl empty ↦ rw (empty, handle_delete_role) refl
        | inr given ↦
            rw (given, handle_delete_role, role_deleted-users s)
              (Laws.delete_role-users (engine_of env draws 0) s.db _)
      ]

  pub handle_user_roles_modify-users :
      (r : Request) (path : String)
      → (handle_user_roles_modify env draws s r path).0.db.users ≡ s.db.users
  unfolding handle_user_roles_modify
  handle_user_roles_modify-users r path =
      elim (Option-cases (extract_user_id_from_path path "/roles")) [
        | inl panics ↦ rw (panics, handle_user_roles_modify) refl
        | inr (id, named) ↦ elim (Bool-cases (id == "")) [
          | inl empty ↦ rw (named, empty, handle_user_roles_modify) refl
          | inr given ↦ elim (Option-cases r.json_body) [
            | inl bad ↦ rw (named, given, bad, handle_user_roles_modify) refl
            | inr (raw, decoded) ↦
                rw (named, given, decoded, handle_user_roles_modify)
                  (modify_roles-users env draws (r.method == "DELETE") id 0
                    (as_items (get raw "roles")) s.db)
          ]
        ]
      ]
