-- ===== src/Database/Updates.antt =====
-- UpdateUser and UpdateAppMetadata of internal/store/sqlite.go.
pub mod Laws
use fake_auth.Base.{
  ℕ, String, Bool, not, ◌&&◌, Option, none, some, List, [], ◌∷◌, ◌++◌, ◌==◌, if◌then◌else◌,
}
use fake_auth.Dict.{Dict, get}
use fake_auth.Json.{Value, as_string, as_object}
use fake_auth.Database.{UserRow, Db, Engine, Codec, json_bytes, id_is}
use fake_auth.Table.{find, exists, update}

-- An assignment of the SET list.
pub data Assignment : Type 0 where
  sets_email : String → Assignment
  sets_display_name : String → Assignment
  sets_user_metadata : String → Assignment
  sets_app_metadata : String → Assignment

unfoldable pub assign : Assignment → UserRow → UserRow
assign (sets_email v) r = record r { email = v }
assign (sets_display_name v) r = record r { display_name = v }
assign (sets_user_metadata v) r = record r { user_metadata = some v }
assign (sets_app_metadata v) r = record r { app_metadata = some v }

-- SQLite lets the rightmost of two assignments of a column count.
unfoldable pub assign_all : List Assignment → UserRow → UserRow
unfolding assign
assign_all [] r = r
assign_all (a ∷ as_) r = assign_all as_ (assign a r)

abbrev when_text : Option String → (String → Assignment) → List Assignment
when_text none f = []
when_text (some v) f = f v ∷ []

abbrev when_object : Codec → Option (Dict Value) → (String → Assignment) → List Assignment
when_object codec none f = []
when_object codec (some m) f = f (json_bytes codec (some m)) ∷ []

-- The SET list that the updates ask for.
unfoldable pub assignments : Codec → Dict Value → List Assignment
assignments codec updates =
    when_text (as_string (get updates "email")) sets_email
    ++ when_text (as_string (get updates "name")) sets_display_name
    ++ when_text (as_string (get updates "display_name")) sets_display_name
    ++ when_object codec (as_object (get updates "user_metadata")) sets_user_metadata
    ++ when_object codec (as_object (get updates "app_metadata")) sets_app_metadata

-- The e-mail address of the updated row is that of another row.
abbrev clashes : String → String → UserRow → Bool
clashes id email r = not (r.id == id) && r.email == email

-- UPDATE users SET … WHERE id = ?, under UNIQUE (email).
unfoldable pub set_user :
    Engine → Option String → String → List Assignment → Db → Db × Option String
unfolding assign_all find exists update
set_user engine (some e) id changes db = (db, some e)
set_user engine none id changes db = elim (find (id_is id) db.users) [
  | none ↦ (db, none)
  | some r ↦
      if exists (clashes id (assign_all changes r).email) db.users
      then (db, some (engine.unique_error "users.email"))
      else (record db { users = update (id_is id) (assign_all changes) db.users }, none)
]

-- No statement for an empty SET list.
unless_empty : Engine → String → List Assignment → Db → Db × Option String
unfolding set_user
unless_empty engine id [] db = (db, none)
unless_empty engine id (a ∷ more) db = set_user engine (engine.fault 0) id (a ∷ more) db

unfoldable pub update_user : Engine → Codec → String → Dict Value → Db → Db × Option String
unfolding assignments unless_empty
update_user engine codec id updates db = unless_empty engine id (assignments codec updates) db

-- A nil map is written as `null`; `marshal` is json.Marshal of such a map.
unfoldable pub update_app_metadata :
    Engine
    → (Option (Dict Value) → Option String)
    → String
    → Option (Dict Value)
    → String
    → Db
    → Db × Option String
unfolding set_user
update_app_metadata engine marshal id meta marshal_error db = elim (marshal meta) [
  | none ↦ (db, some marshal_error)
  | some b ↦ set_user engine (engine.fault 0) id (sets_app_metadata b ∷ []) db
]
