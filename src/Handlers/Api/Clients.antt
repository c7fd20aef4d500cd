-- ===== src/Handlers/Api/Clients.antt =====
-- Clients, connections and logs of the management API: handleListClients, clientToAuth0Response,
-- handleGetClient, handlePatchClient, handleListConnections, handleGetConnection and handleListLogs.
pub mod Keeps
use fake_auth.Base.{
  ℕ, ℤ, pos, String, Bool, Option, none, some, List, [], ◌∷◌, map, ◌==◌, if◌then◌else◌, ltb,
  positive_or,
}
use fake_auth.Dict.{Dict, get, put}
use fake_auth.Json.{Value, Items, null, int, arr, nil, cons, str, strings, as_string}
use fake_auth.Web.{Request, query_value}
use fake_auth.Database.{Db, Fetched, found, missing, broken}
use fake_auth.Database.Applications.{
  Client, Connection, AuditLog, Update, plain, texts, list_clients, get_client_by_id, update_client,
  list_connections, get_connection_by_id, list_logs,
}
use fake_auth.Handlers.{Env, Draws, State, Response, engine_of, send_json, error_json}
use fake_auth.Handlers.Api.{extract_id_from_path, explained, listing}

-- A nil slice is null.
texts_value : Option (List String) → Value
texts_value none = null
texts_value (some ss) = arr (strings ss)

unfoldable pub client_to_auth0_response : Client → Dict Value
unfolding texts_value
client_to_auth0_response c =
    ("client_id", str c.id)
    ∷ ("name", str c.name)
    ∷ ("app_type", str c.app_type)
    ∷ ("callbacks", texts_value c.callbacks)
    ∷ ("allowed_origins", texts_value c.allowed_origins)
    ∷ []

clients_listed : Option (List Client) → Response
unfolding listing client_to_auth0_response
clients_listed none = listing none
clients_listed (some cs) = listing (some (map client_to_auth0_response cs))

unfoldable pub handle_list_clients : Env → Draws → State → Response
unfolding clients_listed
handle_list_clients env draws s =
    clients_listed (list_clients (engine_of env draws 0) env.library.trim_space s.db)

abbrev no_client : Response
no_client = explained 404 "Not found" "The client does not exist."

shown_client : Fetched Client → Response
unfolding client_to_auth0_response
shown_client missing = no_client
shown_client (broken e) = no_client
shown_client (found c) = send_json 200 (client_to_auth0_response c)

unfoldable pub handle_get_client : Env → Draws → State → String → Response
unfolding shown_client extract_id_from_path
handle_get_client env draws s path =
    let id = extract_id_from_path path "/api/v2/clients/" in
    if id == ""
    then error_json 400 "invalid_request"
    else shown_client (get_client_by_id (engine_of env draws 0) env.library.trim_space id s.db)

-- The texts of an array.
texts_of : Items → List String
texts_of nil = []
texts_of (cons (str s) is) = s ∷ texts_of is
texts_of (cons _ is) = texts_of is

plain_updates : Dict Value → Dict Update
plain_updates [] = []
plain_updates ((k, v) ∷ m) = (k, plain v) ∷ plain_updates m

-- An array under the key becomes a []string.
convert : String → Option Value → Dict Update → Dict Update
unfolding texts_of
convert k (some (arr is)) m = put m k (texts (texts_of is))
convert k _ m = m

unfoldable pub client_updates : Dict Value → Dict Update
unfolding plain_updates convert
client_updates updates =
    convert "allowed_origins" (get updates "allowed_origins")
      (convert "callbacks" (get updates "callbacks") (plain_updates updates))

-- `none` is a panic: the client can be gone when it is read again.
client_patched : Env → Draws → State → String → Db × Option String → State × Option Response
unfolding client_to_auth0_response
client_patched env draws s id (db, some e) =
    (record s { db = db }, some (error_json 500 "server_error"))
client_patched env draws s id (db, none) = (
  record s { db = db },
  elim (get_client_by_id (engine_of env draws 2) env.library.trim_space id db) [
    | found c ↦ some (send_json 200 (client_to_auth0_response c))
    | missing ↦ none
    | broken e ↦ none
  ],
)

patch_client :
    Env → Draws → State → String → Option (Dict Value) → Fetched Client → State × Option Response
unfolding client_patched client_updates
patch_client env draws s id body missing = (s, some no_client)
patch_client env draws s id body (broken e) = (s, some no_client)
patch_client env draws s id none (found c) = (s, some (explained 400 "invalid_body" "Invalid JSON"))
patch_client env draws s id (some updates) (found c) =
    client_patched env draws s id
      (update_client (engine_of env draws 1) id (client_updates updates) s.db)

unfoldable pub handle_patch_client :
    Env → Draws → State → Request → String → State × Option Response
unfolding patch_client extract_id_from_path
handle_patch_client env draws s r path =
    let id = extract_id_from_path path "/api/v2/clients/" in
    if id == ""
    then (s, some (error_json 400 "invalid_request"))
    else patch_client env draws s id r.json_body
        (get_client_by_id (engine_of env draws 0) env.library.trim_space id s.db)

connection_json : Connection → Dict Value
connection_json c = ("id", str c.id) ∷ ("name", str c.name) ∷ ("strategy", str c.strategy) ∷ []

connections_listed : Option (List Connection) → Response
unfolding listing connection_json
connections_listed none = listing none
connections_listed (some cs) = listing (some (map connection_json cs))

unfoldable pub handle_list_connections : Env → Draws → State → Response
unfolding connections_listed
handle_list_connections env draws s =
    connections_listed (list_connections (engine_of env draws 0) s.db)

shown_connection : Fetched Connection → Response
unfolding connection_json
shown_connection missing = explained 404 "Not found" "The connection does not exist."
shown_connection (broken e) = explained 404 "Not found" "The connection does not exist."
shown_connection (found c) = send_json 200 (connection_json c)

unfoldable pub handle_get_connection : Env → Draws → State → String → Response
unfolding shown_connection extract_id_from_path
handle_get_connection env draws s path =
    let id = extract_id_from_path path "/api/v2/connections/" in
    if id == ""
    then error_json 400 "invalid_request"
    else shown_connection (get_connection_by_id (engine_of env draws 0) id s.db)

log_json : AuditLog → Dict Value
log_json l =
    ("log_id", int (pos l.id))
    ∷ ("type", str l.event_type)
    ∷ ("user_id", str l.user_id)
    ∷ ("client_id", str l.client_id)
    ∷ ("date", str l.payload)
    ∷ []

logs_listed : Option (List AuditLog) → Response
unfolding listing log_json
logs_listed none = listing none
logs_listed (some ls) = listing (some (map log_json ls))

-- The number of logs that is asked for, 50 by default and at most 100.
unfoldable pub log_limit : ℤ → ℕ
log_limit z = let n = positive_or z 50 in if ltb 100 n then 100 else n

unfoldable pub handle_list_logs : Env → Draws → State → Request → Response
unfolding logs_listed log_limit query_value
handle_list_logs env draws s r =
    let limit = log_limit (env.library.atoi (query_value r "per_page")) in
    logs_listed (list_logs (engine_of env draws 0) (pos limit) s.db)
