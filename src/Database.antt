-- ===== src/Database.antt =====
-- internal/store/store.go and internal/store/sqlite.go: users, roles, role assignments and blocks.
-- A statement of SQL acts on the lists of rows as the tables of `migrate` say; foreign keys, which
-- SQLite does not enforce unless it is told to, restrict nothing.
pub mod Users
pub mod Removal
pub mod Listing
pub mod Updates
pub mod Roles
pub mod Applications
pub mod Seed
use fake_auth.Base.{
  ℕ, ℤ, pos, String, Bool, true, false, ◌&&◌, ◌||◌, Option, none, some, List, [], ◌∷◌, ◌++◌, ◌==◌,
  if◌then◌else◌,
}
use fake_auth.Dict.{Dict, get}
use fake_auth.Json.{Value, Fields, end, field, str, obj, as_string}
use Prim.Native.String
use fake_auth.Table.{find, exists, select, delete, update}

pub record User : Type 0 where
  pub id : String
  pub email : String
  pub password_hash : String
  pub display_name : String
  pub app_metadata : Option (Dict Value)
  pub user_metadata : Option (Dict Value)
  pub organization_id : ℤ
  pub enterprise_id : ℤ
  pub role : String

pub record Role : Type 0 where
  pub id : String
  pub name : String
  pub description : String

-- The columns of `users`; `none` is NULL.
pub record UserRow : Type 0 where
  pub id : String
  pub email : String
  pub password_hash : String
  pub display_name : String
  pub organization_id : ℤ
  pub enterprise_id : ℤ
  pub role : Option String
  pub app_metadata : Option String
  pub user_metadata : Option String

-- The columns of `roles`.
pub record RoleRow : Type 0 where
  pub id : String
  pub name : String
  pub description : Option String

pub record PermissionRow : Type 0 where
  pub id : String
  pub name : String
  pub resource_server_identifier : Option String
  pub description : Option String

pub record ClientRow : Type 0 where
  pub id : String
  pub name : Option String
  pub app_type : Option String
  pub callbacks : Option String
  pub allowed_origins : Option String

pub record ConnectionRow : Type 0 where
  pub id : String
  pub name : String
  pub strategy : Option String

pub record LogRow : Type 0 where
  pub id : ℕ
  pub event_type : Option String
  pub user_id : Option String
  pub client_id : Option String
  pub payload : Option String

-- The tables, each with its rows in the order of insertion, but the newest log first; `last_log` is
-- the sequence of audit_logs.
pub record Db : Type 0 where
  pub users : List UserRow
  pub roles : List RoleRow
  pub permissions : List PermissionRow
  pub user_roles : List (String × String)
  pub role_permissions : List (String × String)
  pub user_blocks : List String
  pub clients : List ClientRow
  pub connections : List ConnectionRow
  pub audit_logs : List LogRow
  pub last_log : ℕ

-- The engine behind database/sql: the error, if any, of the n-th statement of a call, which then
-- has no effect; the text of a violated UNIQUE constraint; ORDER BY created_at DESC, which leaves
-- rows of one second in any order; and LIKE, the value first.
pub record Engine : Type 0 where
  pub fault : ℕ → Option String
  pub unique_error : String → String
  pub newest_first : List UserRow → List UserRow
  pub like : String → String → Bool

-- golang.org/x/crypto/bcrypt
pub record Bcrypt : Type 0 where
  -- GenerateFromPassword; `none` is an error, whose text is `hash_error`
  pub generate : String → Option String
  pub hash_error : String
  -- CompareHashAndPassword without an error
  pub compare_hash : String → String → Bool

-- encoding/json on objects; `unmarshal` yields no map for the text `null`, and `none` is an error.
pub record Codec : Type 0 where
  pub marshal : Dict Value → String
  pub unmarshal : String → Option (Option (Dict Value))

-- The result of a query for one row: `missing` is nil without an error.
pub data Fetched {ℓ} (A : Type ℓ) : Type ℓ where
  found : A → Fetched A
  missing : Fetched A
  broken : String → Fetched A

parsed_or_nil : Option (Option (Dict Value)) → Option (Dict Value)
parsed_or_nil none = none
parsed_or_nil (some m) = m

unfoldable pub parse_json_map : Codec → Option String → Option (Dict Value)
unfolding parsed_or_nil
parse_json_map codec none = none
parse_json_map codec (some s) = if s == "" then none else parsed_or_nil (codec.unmarshal s)

unfoldable pub json_bytes : Codec → Option (Dict Value) → String
json_bytes codec none = "{}"
json_bytes codec (some m) = codec.marshal m

-- A NULL role is read as the empty text.
abbrev pub text_or_empty : Option String → String
text_or_empty none = ""
text_or_empty (some s) = s

unfoldable pub user_of_row : Codec → UserRow → User
unfolding parse_json_map
user_of_row codec r = record {
  id = r.id;
  email = r.email;
  password_hash = r.password_hash;
  display_name = r.display_name;
  app_metadata = parse_json_map codec r.app_metadata;
  user_metadata = parse_json_map codec r.user_metadata;
  organization_id = r.organization_id;
  enterprise_id = r.enterprise_id;
  role = text_or_empty r.role;
}

-- `QueryRow(…).Scan(…)`, with the engine's error for the statement.
fetched : Codec → Option String → Option UserRow → Fetched User
unfolding user_of_row
fetched codec (some e) row = broken e
fetched codec none none = missing
fetched codec none (some r) = found (user_of_row codec r)

abbrev pub email_is : String → UserRow → Bool
email_is email r = r.email == email

abbrev pub id_is : String → UserRow → Bool
id_is id r = r.id == id

unfoldable pub get_by_email : Engine → Codec → Db → String → Fetched User
unfolding fetched find
get_by_email engine codec db email = fetched codec (engine.fault 0) (find (email_is email) db.users)

unfoldable pub get_by_id : Engine → Codec → Db → String → Fetched User
unfolding fetched find
get_by_id engine codec db id = fetched codec (engine.fault 0) (find (id_is id) db.users)

-- INSERT OR IGNORE INTO user_roles, whose primary key is the pair. The error is returned.
abbrev pub pair_is : String → String → String × String → Bool
pair_is a b p = p.0 == a && p.1 == b

unfoldable pub insert_user_role : Option String → String → String → Db → Db × Option String
unfolding exists
insert_user_role (some e) user_id role_id db = (db, some e)
insert_user_role none user_id role_id db =
    if exists (pair_is user_id role_id) db.user_roles
    then (db, none)
    else (record db { user_roles = db.user_roles ++ (user_id, role_id) ∷ [] }, none)

-- INSERT INTO users, under PRIMARY KEY (id) and UNIQUE (email).
insert_user : Engine → Option String → UserRow → Db → Db × Option String
unfolding exists
insert_user engine (some e) row db = (db, some e)
insert_user engine none row db =
    if exists (id_is row.id) db.users
    then (db, some (engine.unique_error "users.id"))
    else if exists (email_is row.email) db.users
    then (db, some (engine.unique_error "users.email"))
    else (record db { users = db.users ++ row ∷ [] }, none)

unfoldable pub default_role_id : String → String
default_role_id role = if role == "admin" then "rol_admin" else "rol_default"

unfoldable pub row_of_user : Codec → User → String → UserRow
unfolding json_bytes
row_of_user codec u hash = record {
  id = u.id;
  email = u.email;
  password_hash = hash;
  display_name = u.display_name;
  organization_id = u.organization_id;
  enterprise_id = u.enterprise_id;
  role = some u.role;
  app_metadata = some (json_bytes codec u.app_metadata);
  user_metadata = some (json_bytes codec u.user_metadata);
}

-- What CreateUser does after its first statement.
after_insert : Engine → User → Db × Option String → Db × Option String
unfolding insert_user_role default_role_id
after_insert engine u (db, some e) = (db, some (String.◌++◌ "create user: " e))
after_insert engine u (db, none) =
    ((insert_user_role (engine.fault 1) u.id (default_role_id u.role) db).0, none)

create_hashed : Engine → Codec → String → User → Db → Option String → Db × Option String
unfolding after_insert insert_user row_of_user
create_hashed engine codec error u db none = (db, some error)
create_hashed engine codec error u db (some hash) =
    after_insert engine u (insert_user engine (engine.fault 0) (row_of_user codec u hash) db)

-- The second result is the error.
unfoldable pub create_user : Engine → Bcrypt → Codec → User → String → Db → Db × Option String
unfolding create_hashed
create_user engine bcrypt codec u password db =
    create_hashed engine codec bcrypt.hash_error u db (bcrypt.generate password)

unfoldable pub create : Engine → Bcrypt → Codec → User → Db → Db × Option String
unfolding create_user
create engine bcrypt codec u db = create_user engine bcrypt codec u u.password_hash db

unfoldable pub verify_password : Bcrypt → String → String → Bool
verify_password bcrypt hash password = bcrypt.compare_hash hash password

-- DELETE FROM user_roles, user_blocks and users, up to the first error.
unfoldable pub delete_user : Engine → String → Db → Db × Option String
unfolding delete
delete_user engine id db = elim (engine.fault 0) [
  | some e ↦ (db, some e)
  | none ↦
      let db1 = record db { user_roles = delete (λ p. p.0 == id) db.user_roles } in
      elim (engine.fault 1) [
        | some e ↦ (db1, some e)
        | none ↦
            let db2 = record db1 { user_blocks = delete (λ b. b == id) db.user_blocks } in
            elim (engine.fault 2) [
              | some e ↦ (db2, some e)
              | none ↦ (record db2 { users = delete (id_is id) db.users }, none)
            ]
      ]
]

unfoldable pub assign_role_to_user : Engine → String → String → Db → Db × Option String
unfolding insert_user_role
assign_role_to_user engine user_id role_id db = insert_user_role (engine.fault 0) user_id role_id db

unfoldable pub remove_role_from_user : Engine → String → String → Db → Db × Option String
unfolding delete
remove_role_from_user engine user_id role_id db = elim (engine.fault 0) [
  | some e ↦ (db, some e)
  | none ↦ (record db { user_roles = delete (pair_is user_id role_id) db.user_roles }, none)
]

-- INSERT OR REPLACE INTO user_blocks, whose primary key is the user.
unfoldable pub block_user : Engine → String → Db → Db × Option String
unfolding delete
block_user engine user_id db = elim (engine.fault 0) [
  | some e ↦ (db, some e)
  | none ↦
      (record db { user_blocks = delete (λ b. b == user_id) db.user_blocks ++ user_id ∷ [] }, none)
]

unfoldable pub unblock_user : Engine → String → Db → Db × Option String
unfolding delete
unblock_user engine user_id db = elim (engine.fault 0) [
  | some e ↦ (db, some e)
  | none ↦ (record db { user_blocks = delete (λ b. b == user_id) db.user_blocks }, none)
]

-- The flag, or the text of the error.
unfoldable pub is_user_blocked : Engine → String → Db → Bool × Option String
unfolding exists
is_user_blocked engine user_id db = elim (engine.fault 0) [
  | some e ↦ (false, some e)
  | none ↦ (exists (λ b. b == user_id) db.user_blocks, none)
]
