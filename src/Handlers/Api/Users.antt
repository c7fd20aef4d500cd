-- ===== src/Handlers/Api/Users.antt =====
-- Users and blocks of the management API: handleGetUser, userToAuth0Response, handleListUsers,
-- handleCreateUserMgmt, handleDeleteUser, handlePatchUser, handleGetUserBlocks and
-- handleUserBlocksModify.
pub mod Keeps
use Prim.Native.String
use fake_auth.Base.{
  ℕ, pos, String, Bool, true, false, not, ◌&&◌, ◌||◌, Option, none, some, List, [], ◌∷◌, map, ◌==◌,
  if◌then◌else◌, ◌*ℤ◌, int64,
}
use fake_auth.Text.{contains, has_prefix, trim_suffix, or_text, local_part}
use fake_auth.Dict.{Dict, put}
use fake_auth.Json.{Value, bool, int, str, obj, arr, nil, of_dict}
use fake_auth.Web.{Request, UserBody, query_value}
use fake_auth.Audit.{log_user_change}
use fake_auth.Database
use fake_auth.Database.{
  Db, Fetched, found, missing, broken, get_by_id, create_user, delete_user, block_user,
  unblock_user, is_user_blocked,
}
use fake_auth.Database.Listing.{list_users}
use fake_auth.Database.Updates.{update_user}
use fake_auth.Handlers.{
  Env, Draws, State, logged, Response, Body, json_list, engine_of, send_json, error_json, report,
}
use fake_auth.Handlers.Api.{
  extract_id_from_path, last_part, explained, no_content, slice_value, listing,
}

put_object : String → Option (Dict Value) → Dict Value → Dict Value
unfolding of_dict
put_object k none out = out
put_object k (some m) out = put out k (obj (of_dict m))

unfoldable pub user_to_auth0_response : Database.User → Dict Value
unfolding put_object
user_to_auth0_response u = put_object "app_metadata" u.app_metadata (
    put_object "user_metadata" u.user_metadata (
      ("user_id", str u.id)
      ∷ ("email", str u.email)
      ∷ ("email_verified", bool true)
      ∷ ("name", str u.display_name)
      ∷ ("nickname", str u.display_name)
      ∷ []))

abbrev pub no_user : Response
no_user = explained 404 "Not found" "The user does not exist."

shown_user : Fetched Database.User → Response
unfolding user_to_auth0_response
shown_user missing = no_user
shown_user (broken e) = no_user
shown_user (found u) = send_json 200 (user_to_auth0_response u)

unfoldable pub handle_get_user : Env → Draws → State → String → Response
unfolding shown_user last_part
handle_get_user env draws s path =
    shown_user (get_by_id (engine_of env draws 0) env.codec s.db (last_part path))

unfoldable pub handle_list_users : Env → Draws → State → Request → Response
unfolding query_value listing slice_value
handle_list_users env draws s r =
    let page_number = env.library.atoi (query_value r "page") in
    let per_page = env.library.atoi (query_value r "per_page") in
    elim (list_users (engine_of env draws 0) env.library.trim_space s.db
      (record { page = page_number; per_page = per_page; query = query_value r "q" })) [
        | none ↦ error_json 500 "server_error"
        | some (users, total) ↦
            let out = map user_to_auth0_response users in
            if query_value r "include_totals" == "true"
            then send_json 200 (
                ("start", int (int64 (page_number *ℤ per_page)))
                ∷ ("limit", int per_page)
                ∷ ("total", int (pos total))
                ∷ ("users", slice_value out)
                ∷ [])
            else listing (some out)
      ]

-- The id that is asked for, if it names a connection, or a new one.
new_user_id : Draws → UserBody → String
unfolding has_prefix contains
new_user_id draws b =
    if not (b.user_id == "") && (has_prefix b.user_id "auth0|" || contains b.user_id "|")
    then b.user_id
    else String.◌++◌ "auth0|" (draws.uuid 0)

new_user : Draws → UserBody → Database.User
unfolding new_user_id or_text local_part
new_user draws b = record {
  id = new_user_id draws b;
  email = b.email;
  password_hash = "";
  display_name = or_text b.name (local_part b.email);
  app_metadata = b.app_metadata;
  user_metadata = b.user_metadata;
  organization_id = pos 1;
  enterprise_id = pos 1;
  role = "user";
}

-- The answer after CreateUser.
created : Database.User → Option String → Response
unfolding contains
created u none = send_json 201 (user_to_auth0_response u)
created u (some e) =
    if contains e "UNIQUE" || contains e "duplicate"
    then explained 409 "Conflict" "The user already exists."
    else error_json 500 "server_error"

create_from_body : Env → Draws → State → Option UserBody → State × Response
unfolding new_user created or_text
create_from_body env draws s none = (s, explained 400 "invalid_body" "Invalid JSON")
create_from_body env draws s (some b) =
    if b.email == ""
    then (s, explained 400 "invalid_body" "Email is required")
    else (let u = new_user draws b in
        let (db, e) =
          create_user (engine_of env draws 0) env.bcrypt env.codec u
            (or_text b.password "password123") s.db in
        (record s { db = db }, created u e))

unfoldable pub handle_create_user_mgmt : Env → Draws → State → Request → State × Response
unfolding create_from_body
handle_create_user_mgmt env draws s r =
    create_from_body env draws s (env.library.decode_user r.body)

-- The event of a change, with a reason where it failed.
abbrev change : Draws → String → String → Bool → Option (Dict Value) → State → State
change draws action id success details s =
    report (logged (log_user_change (draws.clock 9) action id success details)) s

unfoldable pub handle_delete_user : Env → Draws → State → String → State × Response
unfolding last_part
handle_delete_user env draws s path =
    let id = last_part path in
    let (db, failed) = delete_user (engine_of env draws 0) id s.db in
    let s1 = record s { db = db } in
    elim failed [
      | some e ↦ (
        change draws "delete" id false (some (("error", str e) ∷ [])) s1,
        error_json 500 "server_error",
      )
      | none ↦ (change draws "delete" id true none s1, no_content)
    ]

-- The second result is `none` for a panic: the user can be gone when it is read again.
patched : Env → Draws → String → State → Option String → State × Option Response
unfolding user_to_auth0_response
patched env draws id s (some e) = (
  change draws "patch" id false (some (("error", str e) ∷ [])) s,
  some (error_json 500 "server_error"),
)
patched env draws id s none = (
  change draws "patch" id true none s,
  elim (get_by_id (engine_of env draws 2) env.codec s.db id) [
    | found u ↦ some (send_json 200 (user_to_auth0_response u))
    | missing ↦ none
    | broken e ↦ none
  ],
)

patch_found :
    Env
    → Draws
    → String
    → State
    → Option (Dict Value)
    → Fetched Database.User
    → State × Option Response
unfolding patched
patch_found env draws id s body missing =
    (change draws "patch" id false (some (("reason", str "not_found") ∷ [])) s, some no_user)
patch_found env draws id s body (broken e) =
    (change draws "patch" id false (some (("reason", str "not_found") ∷ [])) s, some no_user)
patch_found env draws id s none (found u) = (
  change draws "patch" id false (some (("reason", str "invalid_json") ∷ [])) s,
  some (explained 400 "invalid_body" "Invalid JSON"),
)
patch_found env draws id s (some updates) (found u) =
    let (db, e) = update_user (engine_of env draws 1) env.codec id updates s.db in
    patched env draws id (record s { db = db }) e

unfoldable pub handle_patch_user : Env → Draws → State → Request → State × Option Response
unfolding patch_found last_part trim_suffix
handle_patch_user env draws s r =
    let id = last_part (trim_suffix r.path "/") in
    patch_found env draws id s r.json_body (get_by_id (engine_of env draws 0) env.codec s.db id)

unfoldable pub blocked_user : String → String
unfolding extract_id_from_path trim_suffix
blocked_user path = trim_suffix (extract_id_from_path path "/api/v2/users/") "/blocks"

unfoldable pub handle_get_user_blocks : Env → Draws → State → String → Response
unfolding blocked_user
handle_get_user_blocks env draws s path =
    let user_id = blocked_user path in
    if user_id == ""
    then error_json 400 "invalid_request"
    else (let (blocked, failed) = is_user_blocked (engine_of env draws 0) user_id s.db in
        elim failed [
          | some e ↦ error_json 500 "server_error"
          | none ↦ record {
            status = 200;
            body = json_list (
                some (
                  if blocked
                  then (("blocked_for", arr nil) ∷ ("identifier", str user_id) ∷ []) ∷ []
                  else []));
          }
        ])

blocks_changed : State → Db × Option String → State × Response
blocks_changed s (db, some e) = (record s { db = db }, error_json 500 "server_error")
blocks_changed s (db, none) = (record s { db = db }, no_content)

unfoldable pub handle_user_blocks_modify : Env → Draws → State → Request → String → State × Response
unfolding blocked_user blocks_changed
handle_user_blocks_modify env draws s r path =
    let user_id = blocked_user path in
    if user_id == ""
    then (s, error_json 400 "invalid_request")
    else if r.method == "POST"
    then blocks_changed s (block_user (engine_of env draws 0) user_id s.db)
    else blocks_changed s (unblock_user (engine_of env draws 0) user_id s.db)
