-- ===== src/Handlers/Api.antt =====
-- The management API of internal/handlers/handlers.go: what its handlers share.
pub mod Users
pub mod Roles
pub mod Clients
use fake_auth.Base.{ℕ, String, Bool, not, Option, none, some, List, [], ◌∷◌, ◌==◌, if◌then◌else◌}
use fake_auth.Text.{split, trim_suffix, trim_prefix, has_prefix}
use fake_auth.Dict.{Dict}
use fake_auth.Json.{Value, Items, null, arr, nil, cons, str, obj, of_dict}
use fake_auth.Handlers.{Response, Body, json_list, nothing, send_json, error_json}

unfoldable pub extract_id_from_path : String → String → String
unfolding trim_suffix has_prefix trim_prefix
extract_id_from_path path prefix =
    let trimmed = trim_suffix path "/" in
    if has_prefix trimmed prefix then trim_prefix trimmed prefix else ""

-- The guard is on four parts, and the index on five; `none` is the panic in between.
user_id_part : List String → Option String
user_id_part (a ∷ b ∷ c ∷ d ∷ []) = none
user_id_part (a ∷ b ∷ c ∷ d ∷ e ∷ rest) = some e
user_id_part _ = some ""

unfoldable pub extract_user_id_from_path : String → String → Option String
unfolding split trim_suffix user_id_part
extract_user_id_from_path path suffix = user_id_part (split b'/' (trim_suffix path suffix))

-- parts[len(parts)-1]
last_or : String → List String → String
last_or d [] = d
last_or d (x ∷ xs) = last_or x xs

unfoldable pub last_part : String → String
unfolding split last_or
last_part path = last_or "" (split b'/' path)

-- Two members of text, as the errors have.
abbrev pub explained : ℕ → String → String → Response
explained status error message =
    send_json status (("error", str error) ∷ ("message", str message) ∷ [])

abbrev pub no_content : Response
no_content = record { status = 204; body = nothing }

-- A slice to which each element was appended: nil if there is none.
unfoldable pub slice : List (Dict Value) → Option (List (Dict Value))
slice [] = none
slice (m ∷ ms) = some (m ∷ ms)

objects : List (Dict Value) → Items
unfolding of_dict
objects [] = nil
objects (m ∷ ms) = cons (obj (of_dict m)) (objects ms)

-- The same as a member of an object.
unfoldable pub slice_value : List (Dict Value) → Value
unfolding objects
slice_value [] = null
slice_value (m ∷ ms) = arr (objects (m ∷ ms))

-- The answer of a listing; `none` is an error of the store.
unfoldable pub listing : Option (List (Dict Value)) → Response
unfolding slice
listing none = error_json 500 "server_error"
listing (some ms) = record { status = 200; body = json_list (slice ms) }
