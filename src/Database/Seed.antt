-- ===== src/Database/Seed.antt =====
-- seedRoles, seedClientsAndConnections and SeedFromConfigFile of internal/store/sqlite.go: rows that
-- are inserted unless they are there (INSERT OR IGNORE).
pub mod Idempotence
use Prim.Native.String
use fake_auth.Base.{
  ℕ, ◌+◌, pos, String, Bool, true, false, ◌||◌, Option, none, some, List, [], ◌∷◌, ◌++◌, ◌==◌,
  if◌then◌else◌,
}
use fake_auth.Text.{or_text}
use fake_auth.Table.{exists}
use fake_auth.Database.{
  UserRow, RoleRow, PermissionRow, ClientRow, ConnectionRow, Db, Engine, Bcrypt, email_is, id_is,
  pair_is, default_role_id,
}

-- A row, and its table.
pub data Insert : Type 0 where
  a_user : UserRow → Insert
  a_role : RoleRow → Insert
  a_permission : PermissionRow → Insert
  a_user_role : String → String → Insert
  a_role_permission : String → String → Insert
  a_client : ClientRow → Insert
  a_connection : ConnectionRow → Insert

-- A row of the table has one of its unique columns.
unfoldable pub is_present : Insert → Db → Bool
unfolding exists
is_present (a_user r) db = exists (id_is r.id) db.users || exists (email_is r.email) db.users
is_present (a_role r) db =
    exists (λ (x : RoleRow). x.id == r.id) db.roles
    || exists (λ (x : RoleRow). x.name == r.name) db.roles
is_present (a_permission r) db = exists (λ (x : PermissionRow). x.id == r.id) db.permissions
is_present (a_user_role u r) db = exists (pair_is u r) db.user_roles
is_present (a_role_permission r p) db = exists (pair_is r p) db.role_permissions
is_present (a_client r) db = exists (λ (x : ClientRow). x.id == r.id) db.clients
is_present (a_connection r) db = exists (λ (x : ConnectionRow). x.id == r.id) db.connections

unfoldable pub appended : Insert → Db → Db
appended (a_user r) db = record db { users = db.users ++ r ∷ [] }
appended (a_role r) db = record db { roles = db.roles ++ r ∷ [] }
appended (a_permission r) db = record db { permissions = db.permissions ++ r ∷ [] }
appended (a_user_role u r) db = record db { user_roles = db.user_roles ++ (u, r) ∷ [] }
appended (a_role_permission r p) db = record db {
  role_permissions = db.role_permissions ++ (r, p) ∷ [];
}
appended (a_client r) db = record db { clients = db.clients ++ r ∷ [] }
appended (a_connection r) db = record db { connections = db.connections ++ r ∷ [] }

unfoldable pub insert_or_ignore : Insert → Db → Db
unfolding is_present appended
insert_or_ignore i db = if is_present i db then db else appended i db

-- Several statements of one Exec, from the n-th on: the first error ends them.
unfoldable pub exec_all : Engine → ℕ → List Insert → Db → Db × Option String
unfolding insert_or_ignore
exec_all engine n [] db = (db, none)
exec_all engine n (i ∷ is) db =
    let rest = exec_all engine (n + 1) is (insert_or_ignore i db) in
    elim (engine.fault n) [ some e ↦ (db, some e) | none ↦ rest ]

abbrev pub role_row : String → String → String → Insert
role_row id name description =
    a_role (record { id = id; name = name; description = some description })

abbrev pub permission_row : String → String → String → Insert
permission_row id name description = a_permission (record {
  id = id;
  name = name;
  resource_server_identifier = some "https://api.example.com";
  description = some description;
})

abbrev pub client_row : String → String → String → String → String → Insert
client_row id name app_type callbacks origins = a_client (record {
  id = id;
  name = some name;
  app_type = some app_type;
  callbacks = some callbacks;
  allowed_origins = some origins;
})

abbrev pub role_seeds : List Insert
role_seeds =
    role_row "rol_default" "user" "Default user role"
    ∷ role_row "rol_admin" "admin" "Administrator role"
    ∷ permission_row "perm_read" "read:users" "Read users"
    ∷ permission_row "perm_write" "write:users" "Write users"
    ∷ a_role_permission "rol_default" "perm_read"
    ∷ a_role_permission "rol_admin" "perm_read"
    ∷ a_role_permission "rol_admin" "perm_write"
    ∷ []

abbrev pub client_seeds : List Insert
client_seeds =
    client_row "e2e-test" "E2E Test" "spa"
      "http://localhost:3000/callback,http://localhost/callback"
      "http://localhost:3000,http://localhost"
    ∷ client_row "default" "auth0" "regular_web" "http://localhost/callback" ""
    ∷ a_connection (record {
      id = "con_db_main";
      name = "Username-Password-Authentication";
      strategy = some "auth0";
    })
    ∷ []

unfoldable pub seed_roles : Engine → Db → Db × Option String
unfolding exec_all
seed_roles engine db = exec_all engine 0 role_seeds db

unfoldable pub seed_clients_and_connections : Engine → Db → Db × Option String
unfolding exec_all
seed_clients_and_connections engine db = exec_all engine 0 client_seeds db

-- A user of the configuration file.
pub record SeedUser : Type 0 where
  pub id : String
  pub email : String
  pub password : String
  pub display_name : String
  pub role : String

-- The columns that the statement names; the metadata are NULL.
seed_row : SeedUser → String → UserRow
unfolding or_text
seed_row u hash = record {
  id = u.id;
  email = u.email;
  password_hash = hash;
  display_name = or_text u.display_name u.email;
  organization_id = pos 1;
  enterprise_id = pos 1;
  role = some (or_text u.role "user");
  app_metadata = none;
  user_metadata = none;
}

seed_pair : SeedUser → Insert
unfolding default_role_id or_text
seed_pair u = a_user_role u.id (default_role_id (or_text u.role "user"))

-- The assignment of the role, whose error is dropped.
seed_role : Option String → SeedUser → Db → Db
unfolding insert_or_ignore seed_pair
seed_role (some e) u db = db
seed_role none u db = insert_or_ignore (seed_pair u) db

skipped : SeedUser → Bool
skipped u = u.id == "" || u.email == ""

-- The loop, from the n-th statement on.
unfoldable pub seed_users : Engine → Bcrypt → ℕ → List SeedUser → Db → Db × Option String
unfolding insert_or_ignore seed_row seed_role skipped or_text
seed_users engine bcrypt n [] db = (db, none)
seed_users engine bcrypt n (u ∷ us) db =
    let without = seed_users engine bcrypt n us db in
    elim (skipped u) [
      | true ↦ without
      | false ↦ elim (bcrypt.generate (or_text u.password "password123")) [
        | none ↦ (db, some bcrypt.hash_error)
        | some hash ↦ elim (engine.fault n) [
          | some e ↦ (db, some e)
          | none ↦
              seed_users engine bcrypt (n + 2) us (
                seed_role (engine.fault (n + 1)) u (insert_or_ignore (a_user (seed_row u hash)) db))
        ]
      ]
    ]

-- `read` is os.ReadFile, `decode` json.Unmarshal; an error is its text.
unfoldable pub seed_from_config_file :
    Engine
    → Bcrypt
    → (String → List SeedUser × Option String)
    → String × Option String
    → Db
    → Db × Option String
unfolding seed_users
seed_from_config_file engine bcrypt decode (data_read, some e) db =
    (db, some (String.◌++◌ "read seed config: " e))
seed_from_config_file engine bcrypt decode (data_read, none) db =
    let (users, failed) = decode data_read in
    elim failed [
      | some e ↦ (db, some (String.◌++◌ "parse seed config: " e))
      | none ↦ seed_users engine bcrypt 0 users db
    ]
