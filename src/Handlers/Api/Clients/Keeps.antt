-- ===== src/Handlers/Api/Clients/Keeps.antt =====
-- Patching a client leaves the users alone.
use fake_auth.Base.{String, ◌≡◌, refl, Option, none, some, arith, Bool-cases, inl, inr, ◌==◌}
use fake_auth.Dict.{Dict}
use fake_auth.Json.{Value}
use fake_auth.Web.{Request}
use fake_auth.Database.{Db, Engine, Fetched, found, missing, broken}
use fake_auth.Database.Applications.{Client, Update, update_client}
use fake_auth.Handlers.{Env, Draws, State, engine_of}
use fake_auth.Handlers.Api.{extract_id_from_path}
use fake_auth.Handlers.Api.Clients.{client_patched, patch_client, handle_patch_client}

update_client-users :
    (engine : Engine) (id : String) (updates : Dict Update) (db : Db)
    → (update_client engine id updates db).0.users ≡ db.users
unfolding update_client
update_client-users engine id updates db = ground arith

client_patched-db :
    (env : Env) (draws : Draws) (s : State) (id : String) (r : Db × Option String)
    → (client_patched env draws s id r).0.db ≡ r.0
unfolding client_patched
client_patched-db env draws s id (db, none) = refl
client_patched-db env draws s id (db, some e) = refl

module _ (env : Env) (draws : Draws) (s : State) where
  patch_client-users :
      (id : String) (o : Option (Dict Value)) (f : Fetched Client)
      → (patch_client env draws s id o f).0.db.users ≡ s.db.users
  unfolding patch_client
  patch_client-users id o missing = refl
  patch_client-users id o (broken e) = refl
  patch_client-users id none (found c) = refl
  patch_client-users id (some updates) (found c) =
      rw (client_patched-db env draws s id) (update_client-users (engine_of env draws 1) id _ s.db)

  pub handle_patch_client-users :
      (r : Request) (path : String)
      → (handle_patch_client env draws s r path).0.db.users ≡ s.db.users
  unfolding handle_patch_client
  handle_patch_client-users r path =
      elim (Bool-cases (extract_id_from_path path "/api/v2/clients/" == "")) [
        | inl empty ↦ rw (empty, handle_patch_client) refl
        | inr given ↦ rw (given, handle_patch_client) (patch_client-users _ r.json_body _)
      ]
