-- ===== src/Handlers/Api/Users/Keeps.antt =====
-- The management API keeps the ids and the addresses of users unique.
use fake_auth.Base.{String, ◌≡◌, refl, Option, none, some, arith, ◌==◌, Bool-cases, inl, inr}
use fake_auth.Dict.{Dict}
use fake_auth.Json.{Value}
use fake_auth.Text.{or_text, trim_suffix}
use fake_auth.Web.{Request, UserBody}
use fake_auth.Database
use fake_auth.Database.{Db, Fetched, found, missing, broken, create_user, delete_user, get_by_id}
use fake_auth.Database.Users.{IsConsistent, create_user-IsConsistent}
use fake_auth.Database.Removal.{delete_user-IsConsistent}
use fake_auth.Database.Updates.Laws.{update_user-IsConsistent}
use fake_auth.Database.Roles.Laws.{block_user-users, unblock_user-users}
use fake_auth.Handlers.{Env, Draws, State, engine_of}
use fake_auth.Handlers.Api.{last_part}
use fake_auth.Handlers.Api.Users.{
  new_user, create_from_body, handle_create_user_mgmt, handle_delete_user, patched, patch_found,
  handle_patch_user, blocked_user, blocks_changed, handle_user_blocks_modify,
}

module _ (env : Env) (draws : Draws) (s : State) (h : IsConsistent s.db) where
  create_from_body-IsConsistent :
      (o : Option UserBody) → IsConsistent (create_from_body env draws s o).0.db
  unfolding create_from_body
  create_from_body-IsConsistent none = h
  create_from_body-IsConsistent (some b) = elim (Bool-cases (b.email == "")) [
    | inl empty ↦ rw (empty, create_from_body) h
    | inr given ↦
        rw (given, create_from_body)
          (create_user-IsConsistent (engine_of env draws 0) env.bcrypt env.codec (new_user draws b)
            (or_text b.password "password123") s.db h)
  ]

  pub create-IsConsistent :
      (r : Request) → IsConsistent (handle_create_user_mgmt env draws s r).0.db
  unfolding handle_create_user_mgmt
  create-IsConsistent r = create_from_body-IsConsistent (env.library.decode_user r.body)

  deleted_db :
      (path : String)
      → (handle_delete_user env draws s path).0.db
        ≡ (delete_user (engine_of env draws 0) (last_part path) s.db).0
  unfolding handle_delete_user
  deleted_db path = ground arith

  pub delete-IsConsistent :
      (path : String) → IsConsistent (handle_delete_user env draws s path).0.db
  delete-IsConsistent path =
      rw (deleted_db path)
        (delete_user-IsConsistent (engine_of env draws 0) (last_part path) s.db h)

patched-db :
    (env : Env) (draws : Draws) (id : String) (s : State) (o : Option String)
    → (patched env draws id s o).0.db ≡ s.db
unfolding patched
patched-db env draws id s none = refl
patched-db env draws id s (some e) = refl

module _ (env : Env) (draws : Draws) (s : State) (h : IsConsistent s.db) where
  patch_found-IsConsistent :
      (id : String) (o : Option (Dict Value)) (f : Fetched Database.User)
      → IsConsistent (patch_found env draws id s o f).0.db
  unfolding patch_found
  patch_found-IsConsistent id o missing = h
  patch_found-IsConsistent id o (broken e) = h
  patch_found-IsConsistent id none (found u) = h
  patch_found-IsConsistent id (some updates) (found u) =
      rw (patched-db env draws id)
        (update_user-IsConsistent (engine_of env draws 1) env.codec id updates s.db h)

  pub patch-IsConsistent : (r : Request) → IsConsistent (handle_patch_user env draws s r).0.db
  unfolding handle_patch_user
  patch-IsConsistent r =
      let id = last_part (trim_suffix r.path "/") in
      patch_found-IsConsistent id r.json_body (get_by_id (engine_of env draws 0) env.codec s.db id)

blocks_changed-db : (s : State) (r : Db × Option String) → (blocks_changed s r).0.db ≡ r.0
unfolding blocks_changed
blocks_changed-db s (db, none) = refl
blocks_changed-db s (db, some e) = refl

pub blocks-users :
    (env : Env) (draws : Draws) (s : State) (r : Request) (path : String)
    → (handle_user_blocks_modify env draws s r path).0.db.users ≡ s.db.users
unfolding handle_user_blocks_modify
blocks-users env draws s r path =
    let engine = engine_of env draws 0 in
    elim (Bool-cases (blocked_user path == "")) [
      | inl empty ↦ rw (empty, handle_user_blocks_modify) refl
      | inr given ↦ elim (Bool-cases (r.method == "POST")) [
        | inl posted ↦
            rw (given, posted, handle_user_blocks_modify, blocks_changed-db s)
              (block_user-users engine s.db (blocked_user path))
        | inr deleted ↦
            rw (given, deleted, handle_user_blocks_modify, blocks_changed-db s)
              (unblock_user-users engine s.db (blocked_user path))
      ]
    ]
