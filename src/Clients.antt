-- ===== src/Clients.antt =====
-- internal/clients/config.go: what each OAuth client may do. A nil `*ClientConfig` is `none`; a nil
-- map of clients is the empty one.
pub mod Laws
use fake_auth.Base.{
  String, Char, Bool, true, false, ◌&&◌, not, Option, none, some, List, [], ◌∷◌, ◌==◌,
  if◌then◌else◌, is_some, or_else,
}
use fake_auth.Dict.{Dict, get, put, entries}
use fake_auth.Text.{fields}

pub record ClientConfig : Type 0 where
  pub client_secret : String
  pub redirect_uris : List String
  pub allowed_scopes : List String

pub record Registry : Type 0 where
  pub clients : Dict (Option ClientConfig)
  pub require_secret_for_codes : Bool

abbrev pub new_registry : Registry
new_registry = record { clients = []; require_secret_for_codes = false }

-- for id, cfg := range m { if cfg != nil { r.clients[id] = cfg } }
load_entries :
    List (String × Option ClientConfig) → Dict (Option ClientConfig) → Dict (Option ClientConfig)
load_entries [] m = m
load_entries ((id, none) ∷ es) m = load_entries es m
load_entries ((id, some cfg) ∷ es) m = load_entries es (put m id (some cfg))

-- `raw` is the variable CLIENT_REGISTRY; `unmarshal` is json.Unmarshal into a map of configurations.
-- The flag tells that the error is nil.
unfoldable pub load_from_env :
    (String → Option (Dict (Option ClientConfig))) → String → Registry → Registry × Bool
unfolding load_entries entries
load_from_env unmarshal raw r = if raw == "" then (r, true) else elim (unmarshal raw) [
  | none ↦ (r, false)
  | some m ↦ (record r { clients = load_entries (entries m) r.clients }, true)
]

unfoldable pub add : String → Option ClientConfig → Registry → Registry
add client_id cfg r = record r { clients = put r.clients client_id cfg }

unfoldable pub lookup : Registry → String → Option ClientConfig
lookup r client_id = or_else (get r.clients client_id) none

secret_matches : Option ClientConfig → String → Bool
secret_matches none secret = true
secret_matches (some cfg) secret =
    if cfg.client_secret == "" then true else secret == cfg.client_secret

unfoldable pub validate_secret : Registry → String → String → Bool
unfolding lookup secret_matches
validate_secret r client_id secret = secret_matches (lookup r client_id) secret

has_secret : Option ClientConfig → Bool
has_secret none = false
has_secret (some cfg) = not (cfg.client_secret == "")

unfoldable pub is_confidential : Registry → String → Bool
unfolding lookup has_secret
is_confidential r client_id = has_secret (lookup r client_id)

-- The loop of ValidateRedirectURI.
listed : List String → String → Bool
listed [] uri = false
listed (u ∷ us) uri = let rest = listed us uri in if u == uri then true else rest

uri_allowed : List String → String → Bool
unfolding listed
uri_allowed [] uri = true
uri_allowed (u ∷ us) uri = listed (u ∷ us) uri

redirect_allowed : Option ClientConfig → String → Bool
unfolding uri_allowed
redirect_allowed none uri = true
redirect_allowed (some cfg) uri = uri_allowed cfg.redirect_uris uri

unfoldable pub validate_redirect_uri : Registry → String → String → Bool
unfolding lookup redirect_allowed
validate_redirect_uri r client_id uri = redirect_allowed (lookup r client_id) uri

-- for _, s := range cfg.AllowedScopes { allowedSet[s] = true }
allowed_set : List String → Dict Bool → Dict Bool
allowed_set [] m = m
allowed_set (s ∷ ss) m = allowed_set ss (put m s true)

-- for _, s := range requested { if !allowedSet[s] { return false } }
all_in : Dict Bool → List String → Bool
all_in m [] = true
all_in m (s ∷ ss) = let rest = all_in m ss in if not (or_else (get m s) false) then false else rest

scopes_allowed : List String → List String → Bool
unfolding allowed_set all_in
scopes_allowed [] requested = true
scopes_allowed (a ∷ rest) requested = all_in (allowed_set (a ∷ rest) []) requested

scope_allowed : Option ClientConfig → List String → Bool
unfolding scopes_allowed
scope_allowed none requested = true
scope_allowed (some cfg) requested = scopes_allowed cfg.allowed_scopes requested

-- `space` is unicode.IsSpace.
unfoldable pub validate_scope : (Char → Bool) → Registry → String → String → Bool
unfolding lookup scope_allowed
validate_scope space r client_id requested =
    scope_allowed (lookup r client_id) (fields space requested)
