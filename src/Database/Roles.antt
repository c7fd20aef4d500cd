-- ===== src/Database/Roles.antt =====
-- Roles and permissions of internal/store/sqlite.go: GetUserRoles, GetUserPermissions, ListRoles,
-- GetRoleByID, CreateRole, UpdateRole and DeleteRole.
pub mod Laws
use fake_auth.Base.{
  String, Bool, true, false, not, ◌&&◌, Option, none, some, List, [], ◌∷◌, ◌++◌, map, ◌==◌,
  if◌then◌else◌, is_some,
}
use fake_auth.Table.{find, exists, select, delete, update}
use fake_auth.Database.{
  Role, RoleRow, PermissionRow, Db, Engine, Fetched, found, missing, broken, text_or_empty, pair_is,
}

pub record Permission : Type 0 where
  pub id : String
  pub name : String
  pub resource_server_identifier : String
  pub description : String

abbrev pub role_is : String → RoleRow → Bool
role_is id r = r.id == id

abbrev pub named : String → RoleRow → Bool
named name r = r.name == name

-- A NULL description is read as the empty text.
unfoldable pub role_of_row : RoleRow → Role
role_of_row r = record { id = r.id; name = r.name; description = text_or_empty r.description }

-- GetUserRoles scans the description into a string: NULL is an error.
strict : List RoleRow → Option (List Role)
strict [] = some []
strict (r ∷ rs) =
    let rest = strict rs in
    elim r.description [
      | none ↦ none
      | some d ↦ elim rest [
        | none ↦ none
        | some roles ↦ some (record { id = r.id; name = r.name; description = d } ∷ roles)
      ]
    ]

-- The roles that a row of user_roles joins to the user.
unfoldable pub held : Db → String → RoleRow → Bool
unfolding exists
held db user_id r = exists (pair_is user_id r.id) db.user_roles

-- `none` is an error.
unfoldable pub get_user_roles : Engine → String → Db → Option (List Role)
unfolding strict held select
get_user_roles engine user_id db = elim (engine.fault 0) [
  | some e ↦ none
  | none ↦ strict (select (held db user_id) db.roles)
]

permission_of_row : PermissionRow → Permission
permission_of_row p = record {
  id = p.id;
  name = p.name;
  resource_server_identifier = text_or_empty p.resource_server_identifier;
  description = text_or_empty p.description;
}

-- A role that has the permission, and that the user has.
grants_permission : Db → String → String → String × String → Bool
unfolding exists
grants_permission db user_id permission_id rp =
    rp.1 == permission_id && exists (pair_is user_id rp.0) db.user_roles

-- SELECT DISTINCT, by the primary key.
permitted : Db → String → PermissionRow → Bool
unfolding grants_permission exists
permitted db user_id p = exists (grants_permission db user_id p.id) db.role_permissions

unfoldable pub get_user_permissions : Engine → String → Db → Option (List Permission)
unfolding permission_of_row permitted select
get_user_permissions engine user_id db = elim (engine.fault 0) [
  | some e ↦ none
  | none ↦ some (map permission_of_row (select (permitted db user_id) db.permissions))
]

unfoldable pub list_roles : Engine → Db → Option (List Role)
unfolding role_of_row
list_roles engine db = elim (engine.fault 0) [
  | some e ↦ none
  | none ↦ some (map role_of_row db.roles)
]

fetched_role : Option String → Option RoleRow → Fetched Role
unfolding role_of_row
fetched_role (some e) row = broken e
fetched_role none none = missing
fetched_role none (some r) = found (role_of_row r)

unfoldable pub get_role_by_id : Engine → String → Db → Fetched Role
unfolding fetched_role find
get_role_by_id engine id db = fetched_role (engine.fault 0) (find (role_is id) db.roles)

-- INSERT INTO roles, under PRIMARY KEY (id) and UNIQUE (name).
unfoldable pub insert_role : Engine → Option String → RoleRow → Db → Db × Option String
unfolding exists
insert_role engine (some e) row db = (db, some e)
insert_role engine none row db =
    if exists (role_is row.id) db.roles
    then (db, some (engine.unique_error "roles.id"))
    else if exists (named row.name) db.roles
    then (db, some (engine.unique_error "roles.name"))
    else (record db { roles = db.roles ++ row ∷ [] }, none)

unfoldable pub create_role : Engine → Role → Db → Db × Option String
unfolding insert_role
create_role engine r db =
    insert_role engine (engine.fault 0)
      (record { id = r.id; name = r.name; description = some r.description }) db

abbrev with_text : String → String → RoleRow → RoleRow
with_text name description r = record r { name = name; description = some description }

-- The new name is that of another role.
abbrev taken : String → String → RoleRow → Bool
taken id name r = not (r.id == id) && r.name == name

unfoldable pub update_role : Engine → String → String → String → Db → Db × Option String
unfolding exists update
update_role engine id name description db = elim (engine.fault 0) [
  | some e ↦ (db, some e)
  | none ↦
      if exists (role_is id) db.roles && exists (taken id name) db.roles
      then (db, some (engine.unique_error "roles.name"))
      else (record db { roles = update (role_is id) (with_text name description) db.roles }, none)
]

-- A statement whose error is dropped.
unless_failed : Option String → Db → Db → Db
unless_failed none before after = after
unless_failed (some e) before after = before

-- The errors of the first two statements are dropped.
unfoldable pub delete_role : Engine → String → Db → Db × Option String
unfolding unless_failed delete
delete_role engine id db =
    let db1 =
      unless_failed (engine.fault 0) db
        (record db { role_permissions = delete (λ p. p.0 == id) db.role_permissions }) in
    let db2 =
      unless_failed (engine.fault 1) db1
        (record db1 { user_roles = delete (λ p. p.1 == id) db1.user_roles }) in
    elim (engine.fault 2) [
      | some e ↦ (db2, some e)
      | none ↦ (record db2 { roles = delete (role_is id) db2.roles }, none)
    ]
