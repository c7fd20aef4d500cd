-- ===== src/Handlers/Api/Roles.antt =====
-- Roles and permissions of the management API: handleGetUserRoles, handleGetUserPermissions,
-- handleListRoles, handleUserRolesModify, handleCreateRole, handleGetRole, handlePatchRole and
-- handleDeleteRole. The result `none` is a panic.
pub mod Keeps
use Prim.Native.String
use fake_auth.Base.{
  ℕ, suc, String, Bool, Option, none, some, List, [], ◌∷◌, map, ◌==◌, if◌then◌else◌, or_else,
}
use fake_auth.Text.{contains, or_text, keep}
use fake_auth.Dict.{Dict, get}
use fake_auth.Json.{Value, Items, arr, nil, cons, str, obj, to_dict, as_string}
use fake_auth.Web.{Request, RoleBody}
use fake_auth.Database.{
  Role, Db, Fetched, found, missing, broken, assign_role_to_user, remove_role_from_user,
}
use fake_auth.Database.Roles.{
  Permission, get_user_roles, get_user_permissions, list_roles, get_role_by_id, create_role,
  update_role, delete_role,
}
use fake_auth.Handlers.{Env, Draws, State, Response, engine_of, send_json, error_json}
use fake_auth.Handlers.Api.{
  extract_id_from_path, extract_user_id_from_path, explained, no_content, listing,
}

unfoldable pub role_json : Role → Dict Value
role_json r = ("id", str r.id) ∷ ("name", str r.name) ∷ ("description", str r.description) ∷ []

permission_json : Permission → Dict Value
permission_json p =
    ("permission_name", str p.name)
    ∷ ("resource_server_identifier", str p.resource_server_identifier)
    ∷ ("resource_server_name", str p.resource_server_identifier)
    ∷ ("description", str p.description)
    ∷ []

roles_listed : Option (List Role) → Response
unfolding listing role_json
roles_listed none = listing none
roles_listed (some roles) = listing (some (map role_json roles))

permissions_listed : Option (List Permission) → Response
unfolding listing permission_json
permissions_listed none = listing none
permissions_listed (some permissions) = listing (some (map permission_json permissions))

unfoldable pub handle_get_user_roles : Env → Draws → State → String → Option Response
unfolding roles_listed extract_user_id_from_path
handle_get_user_roles env draws s path = elim (extract_user_id_from_path path "/roles") [
  | none ↦ none
  | some user_id ↦
      if user_id == ""
      then some (error_json 400 "invalid_request")
      else some (roles_listed (get_user_roles (engine_of env draws 0) user_id s.db))
]

unfoldable pub handle_get_user_permissions : Env → Draws → State → String → Option Response
unfolding permissions_listed extract_user_id_from_path
handle_get_user_permissions env draws s path =
    elim (extract_user_id_from_path path "/permissions") [
      | none ↦ none
      | some user_id ↦
          if user_id == ""
          then some (error_json 400 "invalid_request")
          else some (permissions_listed (get_user_permissions (engine_of env draws 0) user_id s.db))
    ]

unfoldable pub handle_list_roles : Env → Draws → State → Response
unfolding roles_listed
handle_list_roles env draws s = roles_listed (list_roles (engine_of env draws 0) s.db)

-- rolesVal, _ := raw["roles"].([]interface{})
as_items : Option Value → Items
as_items (some (arr is)) = is
as_items _ = nil

-- The role's id in an element, or the empty text.
role_id_of : Value → String
role_id_of (str s) = s
role_id_of (obj fs) = or_else (as_string (get (to_dict fs) "id")) ""
role_id_of _ = ""

-- The loop, from the n-th call of the store on; the errors are dropped.
modify_roles : Env → Draws → Bool → String → ℕ → Items → Db → Db
unfolding role_id_of
modify_roles env draws deletes user_id n nil db = db
modify_roles env draws deletes user_id n (cons v vs) db =
    let role_id = role_id_of v in
    let next =
      if role_id == ""
      then db
      else if deletes
      then (remove_role_from_user (engine_of env draws n) user_id role_id db).0
      else (assign_role_to_user (engine_of env draws n) user_id role_id db).0 in
    modify_roles env draws deletes user_id (suc n) vs next

unfoldable pub handle_user_roles_modify :
    Env → Draws → State → Request → String → State × Option Response
unfolding modify_roles as_items extract_user_id_from_path
handle_user_roles_modify env draws s r path = elim (extract_user_id_from_path path "/roles") [
  | none ↦ (s, none)
  | some user_id ↦
      if user_id == "" then (s, some (error_json 400 "invalid_request")) else (elim r.json_body [
        | none ↦ (s, some no_content)
        | some raw ↦ (
          record s {
            db =
                modify_roles env draws (r.method == "DELETE") user_id 0 (as_items (get raw "roles"))
                  s.db;
          },
          some no_content,
        )
      ])
]

role_created : State → Role → Db × Option String → State × Response
unfolding contains role_json
role_created s ro (db, none) = (record s { db = db }, send_json 201 (role_json ro))
role_created s ro (db, some e) = (
  record s { db = db },
  if contains e "UNIQUE"
      then explained 409 "Conflict" "Role already exists"
      else error_json 500 "server_error",
)

role_from_body : Env → Draws → State → Option RoleBody → State × Response
unfolding role_created keep
role_from_body env draws s none = (s, explained 400 "invalid_body" "Invalid JSON")
role_from_body env draws s (some b) =
    if b.name == ""
    then (s, explained 400 "invalid_body" "Name is required")
    else (let ro : Role = record {
      id = String.◌++◌ "rol_" (keep 8 (draws.uuid 0));
      name = b.name;
      description = b.description;
    } in
        role_created s ro (create_role (engine_of env draws 0) ro s.db))

unfoldable pub handle_create_role : Env → Draws → State → Request → State × Response
unfolding role_from_body
handle_create_role env draws s r = role_from_body env draws s (env.library.decode_role r.body)

abbrev no_role : Response
no_role = explained 404 "Not found" "The role does not exist."

shown_role : Fetched Role → Response
unfolding role_json
shown_role missing = no_role
shown_role (broken e) = no_role
shown_role (found ro) = send_json 200 (role_json ro)

unfoldable pub handle_get_role : Env → Draws → State → String → Response
unfolding shown_role extract_id_from_path
handle_get_role env draws s path =
    let id = extract_id_from_path path "/api/v2/roles/" in
    if id == ""
    then error_json 400 "invalid_request"
    else shown_role (get_role_by_id (engine_of env draws 0) id s.db)

role_updated : State → Role → Db × Option String → State × Response
unfolding role_json
role_updated s ro (db, some e) = (record s { db = db }, error_json 500 "server_error")
role_updated s ro (db, none) = (record s { db = db }, send_json 200 (role_json ro))

patch_role : Env → Draws → State → String → RoleBody → Fetched Role → State × Response
unfolding role_updated or_text
patch_role env draws s id b missing = (s, no_role)
patch_role env draws s id b (broken e) = (s, no_role)
patch_role env draws s id b (found ro) =
    let name = or_text b.name ro.name in
    let description = or_text b.description ro.description in
    role_updated s (record { id = id; name = name; description = description })
      (update_role (engine_of env draws 1) id name description s.db)

unfoldable pub handle_patch_role : Env → Draws → State → Request → String → State × Response
unfolding patch_role extract_id_from_path
handle_patch_role env draws s r path =
    let id = extract_id_from_path path "/api/v2/roles/" in
    if id == ""
    then (s, error_json 400 "invalid_request")
    else (elim (env.library.decode_role r.body) [
      | none ↦ (s, explained 400 "invalid_body" "Invalid JSON")
      | some b ↦ patch_role env draws s id b (get_role_by_id (engine_of env draws 0) id s.db)
    ])

role_deleted : State → Db × Option String → State × Response
role_deleted s (db, some e) = (record s { db = db }, error_json 500 "server_error")
role_deleted s (db, none) = (record s { db = db }, no_content)

unfoldable pub handle_delete_role : Env → Draws → State → String → State × Response
unfolding role_deleted extract_id_from_path
handle_delete_role env draws s path =
    let id = extract_id_from_path path "/api/v2/roles/" in
    if id == ""
    then (s, error_json 400 "invalid_request")
    else role_deleted s (delete_role (engine_of env draws 0) id s.db)
