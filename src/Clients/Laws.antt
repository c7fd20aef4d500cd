-- ===== src/Clients/Laws.antt =====
-- The checks of the registry against what they promise.
use fake_auth.Base.{
  String, Char, ◌≡◌, refl, ◌≢◌, ◌↔◌, ◌⊎◌, inl, inr, Bool, true, false, ◌||◌, Option, none, some,
  List, [], ◌∷◌, arith, ◌==◌, eq_iff, if◌then◌else◌, or_else, All, Option-cases, eq_of_ne,
  Bool-cases, eq_refl,
}
use fake_auth.Dict.{Dict, get, put, entries, get-put, remove}
use fake_auth.Text.{fields}
use fake_auth.Clients.{
  ClientConfig, Registry, lookup, load_entries, load_from_env, validate_secret, secret_matches,
  has_secret, is_confidential, listed, uri_allowed, redirect_allowed, validate_redirect_uri,
  allowed_set, all_in, scopes_allowed, scope_allowed, validate_scope,
}

-- The text stands in the list.
abbrev pub Listed : String → List String → Type 0
Listed u [] = ⊥
Listed u (v ∷ vs) = (v ≡ u) ⊎ Listed u vs

listed_sound : (us : List String) (u : String) → listed us u ≡ true → Listed u us
unfolding listed
listed_sound [] u h = cc
listed_sound (v ∷ vs) u h = ground (arith, eq_iff v u, listed_sound vs u)

listed_complete : (us : List String) (u : String) → Listed u us → listed us u ≡ true
unfolding listed
listed_complete [] u h = absurd h
listed_complete (v ∷ vs) u (inl e) = ground (arith, eq_iff v u)
listed_complete (v ∷ vs) u (inr h) = ground (arith, eq_iff v u, listed_complete vs u h)

uri_allowed-listed : (us : List String) (u : String) → us ≢ [] → uri_allowed us u ≡ listed us u
unfolding uri_allowed
uri_allowed-listed [] u h = absurd (h refl)
uri_allowed-listed (v ∷ vs) u h = refl

secret_matches_sound :
    (o : Option ClientConfig) (secret : String)
    → secret_matches o secret ≡ true
    → (has_secret o ≡ false)
      ⊎ ((cfg : ClientConfig) × (o ≡ some cfg) × (secret ≡ cfg.client_secret))
unfolding secret_matches has_secret
secret_matches_sound none secret h = inl refl
secret_matches_sound (some cfg) secret h = elim (Bool-cases (cfg.client_secret == "")) [
  | inl open_client ↦ inl (rw open_client refl)
  | inr closed ↦ inr (cfg, refl, ground (arith, eq_iff secret cfg.client_secret))
]

secret_matches_complete :
    (o : Option ClientConfig) (secret : String)
    → (has_secret o ≡ false)
      ⊎ ((cfg : ClientConfig) × (o ≡ some cfg) × (secret ≡ cfg.client_secret))
    → secret_matches o secret ≡ true
unfolding secret_matches has_secret
secret_matches_complete none secret h = refl
secret_matches_complete (some cfg) secret (inl h) = ground arith
secret_matches_complete (some cfg) secret (inr (cfg', e, h)) =
    ground (arith, eq_iff secret cfg.client_secret, eq_refl secret)

module _ (r : Registry) (client_id : String) where
  validate-listed :
      (uri : String) (cfg : ClientConfig)
      → lookup r client_id ≡ some cfg
      → cfg.redirect_uris ≢ []
      → validate_redirect_uri r client_id uri ≡ listed cfg.redirect_uris uri
  unfolding validate_redirect_uri redirect_allowed
  validate-listed uri cfg found many =
      rw (found, redirect_allowed) (uri_allowed-listed cfg.redirect_uris uri many)

  -- For a configured client that lists redirect URIs, exactly the listed URIs are allowed.
  pub validate_redirect_uri_iff :
      (uri : String) (cfg : ClientConfig)
      → lookup r client_id ≡ some cfg
      → cfg.redirect_uris ≢ []
      → (validate_redirect_uri r client_id uri ≡ true) ↔ Listed uri cfg.redirect_uris
  validate_redirect_uri_iff uri cfg found many =
      rw (validate-listed uri cfg found many)
        (listed_sound cfg.redirect_uris uri, listed_complete cfg.redirect_uris uri)

  -- A secret is accepted exactly when the client is not confidential, or its configuration holds
  -- that secret.
  pub validate_secret_iff :
      (secret : String)
      → (validate_secret r client_id secret ≡ true) ↔ (
          (is_confidential r client_id ≡ false)
          ⊎ ((cfg : ClientConfig) × (lookup r client_id ≡ some cfg) × (secret ≡ cfg.client_secret)))
  unfolding validate_secret is_confidential
  validate_secret_iff secret = (
    secret_matches_sound (lookup r client_id) secret,
    secret_matches_complete (lookup r client_id) secret,
  )

-- The membership test of `allowedSet`.
allowed_set-get :
    (given : List String) (m : Dict Bool) (s : String)
    → or_else (get (allowed_set given m) s) false ≡ (listed given s || or_else (get m s) false)
unfolding allowed_set listed
allowed_set-get [] m s = refl
allowed_set-get (a ∷ more) m s =
    ground (arith, allowed_set-get more (put m a true) s, get-put m a s true)

all_in-Listed :
    (given requested : List String)
    → (all_in (allowed_set given []) requested ≡ true) ↔ All (λ s. Listed s given) requested
unfolding all_in get
all_in-Listed given [] = (λ h. tt, λ h. refl)
all_in-Listed given (s ∷ more) =
    let (to, from) = all_in-Listed given more in
    (
      λ h. (listed_sound given s (ground (arith, allowed_set-get given [] s)), to (ground arith)),
      λ (h, rest). ground (arith, allowed_set-get given [] s, listed_complete given s h, from rest),
    )

scopes_allowed-all_in :
    (given requested : List String)
    → given ≢ []
    → scopes_allowed given requested ≡ all_in (allowed_set given []) requested
unfolding scopes_allowed
scopes_allowed-all_in [] requested h = absurd (h refl)
scopes_allowed-all_in (a ∷ more) requested h = refl

module _ (space : Char → Bool) (r : Registry) (client_id requested : String) where
  -- For a configured client that lists scopes, a request is allowed exactly when each of its
  -- scopes is listed.
  pub validate_scope_iff :
      (cfg : ClientConfig)
      → lookup r client_id ≡ some cfg
      → cfg.allowed_scopes ≢ []
      → (validate_scope space r client_id requested ≡ true)
        ↔ All (λ s. Listed s cfg.allowed_scopes) (fields space requested)
  unfolding validate_scope scope_allowed
  validate_scope_iff cfg found many =
      rw (found, scope_allowed, scopes_allowed-all_in cfg.allowed_scopes _ many)
        (all_in-Listed cfg.allowed_scopes (fields space requested))

-- What the pairs say of a client: the last entry that is not nil.
abbrev given_from : List (String × Option ClientConfig) → String → Option ClientConfig
given_from [] k = none
given_from ((j, none) ∷ es) k = given_from es k
given_from ((j, some cfg) ∷ es) k = elim (given_from es k) [
  | some c ↦ some c
  | none ↦ if j == k then some cfg else none
]

given_from-remove :
    (es : List (String × Option ClientConfig)) (i k : String)
    → given_from (remove es i) k ≡ (if i == k then none else given_from es k)
unfolding remove
given_from-remove [] i k = ground arith
given_from-remove ((j, none) ∷ es) i k = ground (arith, given_from-remove es i k)
given_from-remove ((j, some cfg) ∷ es) i k =
    ground (arith, given_from-remove es i k, eq_iff j i, eq_iff j k, eq_iff i k)

given_from-entries :
    (m : Dict (Option ClientConfig)) (k : String)
    → given_from (entries m) k ≡ or_else (get m k) none
unfolding entries get
given_from-entries [] k = refl
given_from-entries ((j, none) ∷ m) k =
    ground (arith, given_from-entries m k, given_from-remove (entries m) j k)
given_from-entries ((j, some cfg) ∷ m) k =
    ground (arith, given_from-entries m k, given_from-remove (entries m) j k)

-- An entry of the loaded map that is not nil, or else what was there.
abbrev pub loaded : Option ClientConfig → Option ClientConfig → Option ClientConfig
loaded none old = old
loaded (some cfg) old = some cfg

get-load_entries :
    (es : List (String × Option ClientConfig)) (m : Dict (Option ClientConfig)) (k : String)
    → or_else (get (load_entries es m) k) none ≡ loaded (given_from es k) (or_else (get m k) none)
unfolding load_entries
get-load_entries [] m k = refl
get-load_entries ((j, none) ∷ es) m k = get-load_entries es m k
get-load_entries ((j, some cfg) ∷ es) m k =
    ground (arith, get-load_entries es (put m j (some cfg)) k, get-put m j k (some cfg))

-- For a variable that is not empty, loading keeps the registered client of each name that the map
-- does not configure, and takes the configuration of the map for every other name; where the text
-- cannot be parsed, nothing changes.
pub lookup-load_from_env :
    (unmarshal : String → Option (Dict (Option ClientConfig))) (raw : String) (r : Registry)
    (client_id : String)
    → raw ≢ ""
    → lookup (load_from_env unmarshal raw r).0 client_id
      ≡ loaded (or_else (get (or_else (unmarshal raw) []) client_id) none) (lookup r client_id)
unfolding load_from_env lookup get
lookup-load_from_env unmarshal raw r client_id given = elim (Option-cases (unmarshal raw)) [
  | inl bad ↦ rw (bad, eq_of_ne raw "" given) refl
  | inr (m, good) ↦
      rw (good, eq_of_ne raw "" given)
        (rw (← given_from-entries m client_id) (get-load_entries (entries m) r.clients client_id))
]
