-- ===== src/Database/Applications.antt =====
-- Clients, connections and audit logs of internal/store/sqlite.go: ListClients, GetClientByID,
-- UpdateClient, ListConnections, GetConnectionByID, AppendLog and ListLogs.
use fake_auth.Base.{
  ℕ, suc, ℤ, String, Bool, true, false, Option, none, some, List, [], ◌∷◌, map, ◌==◌, if◌then◌else◌,
  take, positive_or,
}
use fake_auth.Text.{split, join}
use fake_auth.Dict.{Dict, get}
use fake_auth.Json.{Value, as_string}
use fake_auth.Table.{find, update}
use fake_auth.Database.{
  ClientRow, ConnectionRow, LogRow, Db, Engine, Fetched, found, missing, broken, text_or_empty,
}

-- A nil slice is `none`.
pub record Client : Type 0 where
  pub id : String
  pub name : String
  pub app_type : String
  pub callbacks : Option (List String)
  pub allowed_origins : Option (List String)

pub record Connection : Type 0 where
  pub id : String
  pub name : String
  pub strategy : String

pub record AuditLog : Type 0 where
  pub id : ℕ
  pub event_type : String
  pub user_id : String
  pub client_id : String
  pub payload : String

-- The parts of a column that is a list separated by commas; `trim_space` is strings.TrimSpace.
listed : (String → String) → Option String → Option (List String)
unfolding split
listed trim_space none = none
listed trim_space (some s) = if s == "" then none else some (map trim_space (split b',' s))

unfoldable pub client_of_row : (String → String) → ClientRow → Client
unfolding listed
client_of_row trim_space r = record {
  id = r.id;
  name = text_or_empty r.name;
  app_type = text_or_empty r.app_type;
  callbacks = listed trim_space r.callbacks;
  allowed_origins = listed trim_space r.allowed_origins;
}

-- `none` is an error.
unfoldable pub list_clients : Engine → (String → String) → Db → Option (List Client)
unfolding client_of_row
list_clients engine trim_space db = elim (engine.fault 0) [
  | some e ↦ none
  | none ↦ some (map (client_of_row trim_space) db.clients)
]

abbrev pub client_is : String → ClientRow → Bool
client_is id r = r.id == id

unfoldable pub get_client_by_id : Engine → (String → String) → String → Db → Fetched Client
unfolding client_of_row find
get_client_by_id engine trim_space id db = elim (engine.fault 0) [
  | some e ↦ broken e
  | none ↦ elim (find (client_is id) db.clients) [
    | none ↦ missing
    | some r ↦ found (client_of_row trim_space r)
  ]
]

-- A member of the updates: a JSON value, or the []string that the handler makes of an array.
pub data Update : Type 0 where
  plain : Value → Update
  texts : List String → Update

-- v, ok := updates[k].(string)
as_text : Option Update → Option String
as_text (some (plain v)) = as_string (some v)
as_text _ = none

-- v, ok := updates[k].([]string), joined by commas
as_texts : Option Update → Option String
unfolding join
as_texts (some (texts ss)) = some (join "," ss)
as_texts _ = none

-- An assignment of the SET list; a column is assigned by one of its two kinds of value.
set_name : Option String → ClientRow → ClientRow
set_name none r = r
set_name (some s) r = record r { name = some s }

set_callbacks : Option String → ClientRow → ClientRow
set_callbacks none r = r
set_callbacks (some s) r = record r { callbacks = some s }

set_origins : Option String → ClientRow → ClientRow
set_origins none r = r
set_origins (some s) r = record r { allowed_origins = some s }

assigned : Dict Update → ClientRow → ClientRow
unfolding set_name set_callbacks set_origins as_text as_texts
assigned updates r = set_origins (as_text (get updates "allowed_origins")) (
    set_callbacks (as_text (get updates "callbacks")) (
      set_origins (as_texts (get updates "allowed_origins")) (
        set_callbacks (as_texts (get updates "callbacks"))
          (set_name (as_text (get updates "name")) r))))

-- Whether the SET list is empty.
nothing_set : Option String → Option String → Option String → Option String → Option String → Bool
nothing_set none none none none none = true
nothing_set _ _ _ _ _ = false

unfoldable pub update_client : Engine → String → Dict Update → Db → Db × Option String
unfolding assigned nothing_set as_text as_texts update
update_client engine id updates db =
    if nothing_set (as_text (get updates "name")) (as_texts (get updates "callbacks"))
      (as_texts (get updates "allowed_origins")) (as_text (get updates "callbacks"))
      (as_text (get updates "allowed_origins"))
    then (db, none)
    else elim (engine.fault 0) [
      | some e ↦ (db, some e)
      | none ↦ (record db { clients = update (client_is id) (assigned updates) db.clients }, none)
    ]

connection_of_row : ConnectionRow → Connection
connection_of_row r = record { id = r.id; name = r.name; strategy = text_or_empty r.strategy }

unfoldable pub list_connections : Engine → Db → Option (List Connection)
unfolding connection_of_row
list_connections engine db = elim (engine.fault 0) [
  | some e ↦ none
  | none ↦ some (map connection_of_row db.connections)
]

unfoldable pub get_connection_by_id : Engine → String → Db → Fetched Connection
unfolding connection_of_row find
get_connection_by_id engine id db = elim (engine.fault 0) [
  | some e ↦ broken e
  | none ↦ elim (find (λ (r : ConnectionRow). r.id == id) db.connections) [
    | none ↦ missing
    | some r ↦ found (connection_of_row r)
  ]
]

-- AUTOINCREMENT: one more than the largest id that the table ever had.
unfoldable pub append_log : Engine → String → String → String → String → Db → Db × Option String
append_log engine event_type user_id client_id payload db = elim (engine.fault 0) [
  | some e ↦ (db, some e)
  | none ↦
      let row : LogRow = record {
        id = suc db.last_log;
        event_type = some event_type;
        user_id = some user_id;
        client_id = some client_id;
        payload = some payload;
      } in
      (record db { audit_logs = row ∷ db.audit_logs; last_log = suc db.last_log }, none)
]

log_of_row : LogRow → Option AuditLog
log_of_row r = elim r.event_type [
  | none ↦ none
  | some event_type ↦ some (record {
    id = r.id;
    event_type = event_type;
    user_id = text_or_empty r.user_id;
    client_id = text_or_empty r.client_id;
    payload = text_or_empty r.payload;
  })
]

-- Scanning stops at the first row whose type is NULL, with an error.
scan_logs : List LogRow → Option (List AuditLog)
unfolding log_of_row
scan_logs [] = some []
scan_logs (r ∷ rs) =
    let rest = scan_logs rs in
    elim (log_of_row r) [
      | none ↦ none
      | some l ↦ elim rest [ none ↦ none | some ls ↦ some (l ∷ ls) ]
    ]

-- The newest first, by their ids.
unfoldable pub list_logs : Engine → ℤ → Db → Option (List AuditLog)
unfolding scan_logs
list_logs engine limit db = elim (engine.fault 0) [
  | some e ↦ none
  | none ↦ scan_logs (take (positive_or limit 50) db.audit_logs)
]
