-- ===== src/Handlers/CodeExchange/Soundness.antt =====
-- What an exchange that issues tokens has established.
use fake_auth.Base.{
  ℕ, ◌≤◌, ◌<◌, if◌then◌else◌, String, ◌≡◌, refl, sym, ap, ◌∙◌, ◌⊎◌, inl, inr, Bool, true, false,
  not, ◌&&◌, Option, none, some, arith, ◌==◌, eq_iff, Bool-cases, Option-cases, ltb, same, or_else,
}
use fake_auth.Text.{trim_suffix}
use fake_auth.Dict.{Dict, get}
use fake_auth.Dict.Range.{alive}
use fake_auth.Pkce
use fake_auth.Pkce.Laws.{Accepts, verify_iff}
use fake_auth.Database
use fake_auth.Database.{Fetched, found, missing, broken, get_by_id}
use fake_auth.Clients.{Registry, is_confidential, validate_secret}
use fake_auth.Grants
use fake_auth.Grants.{AuthCode, consume_code, code_expired}
use fake_auth.Grants.OneTime.{consume_code_lem}
use fake_auth.Handlers.{
  Env, Draws, Config, ReplayEntry, State, json, bytes, nothing, json_list, text, html, redirect,
  prometheus, Body, Response, engine_of,
}
use fake_auth.Handlers.CodeExchange.{
  Exchange, trimmed_url, normalize_uri, replayed, pkce_refusal, secret_refusal, refusal,
  grant_tokens, checked, consumed, handle_authorization_code,
}

-- The URI without the trailing slash of its path, its query and its raw fragment.
abbrev pub plain_uri : Env → String → String
plain_uri env uri = elim (env.parse_url uri) [
  | none ↦ uri
  | some u ↦
      env.url_string (record u { path = trim_suffix u.path "/"; raw_query = ""; raw_fragment = "" })
]

trimmed_path :
    (path : String)
    → (if path == "/" then "" else if not (path == "") then trim_suffix path "/" else path)
      ≡ trim_suffix path "/"
unfolding trim_suffix
trimmed_path path = elim (Bool-cases (path == "/")) [
  | inl root ↦ rw ((eq_iff path "/").0 root) refl
  | inr other ↦ elim (Bool-cases (path == "")) [
    | inl empty ↦ rw ((eq_iff path "").0 empty) refl
    | inr some_path ↦ rw (other, some_path) refl
  ]
]

pub normalize_uri-plain : (env : Env) (uri : String) → normalize_uri env uri ≡ plain_uri env uri
unfolding normalize_uri trimmed_url
normalize_uri-plain env uri = elim (Option-cases (env.parse_url uri)) [
  | inl bad ↦ rw (bad, normalize_uri, plain_uri) refl
  | inr (u, good) ↦
      rw (good, normalize_uri, plain_uri)
        (ap (λ p. env.url_string (record u { path = p; raw_query = ""; raw_fragment = "" }))
          (trimmed_path u.path))
]

-- No secret is required, or the client has none, or it has presented it.
abbrev pub SecretOk : Option Registry → String → String → Type 0
SecretOk none client_id secret = Unit
SecretOk (some r) client_id secret =
    (r.require_secret_for_codes ≡ false)
    ⊎ (is_confidential r client_id ≡ false)
    ⊎ (validate_secret r client_id secret ≡ true)

-- The request fits the code: its client and redirect URI are those of the code, where they are
-- given, the verifier answers the challenge, if there is one, and the secret is right.
pub record IsEntitled (cfg : Config) (env : Env) (ac : AuthCode) (x : Exchange) : Type 0 where
  pub client : (x.client_id ≡ "") ⊎ (ac.client_id ≡ x.client_id)
  pub redirect :
      (x.redirect_uri ≡ "") ⊎ (plain_uri env ac.redirect_uri ≡ plain_uri env x.redirect_uri)
  pub proof :
      (ac.code_challenge ≡ "")
      ⊎ Accepts env.s256 x.code_verifier ac.code_challenge ac.code_challenge_method
  pub secret : SecretOk cfg.client_registry ac.client_id x.client_secret

pkce_sound :
    (env : Env) (ac : AuthCode) (verifier : String)
    → pkce_refusal env ac verifier ≡ none
    → (ac.code_challenge ≡ "")
      ⊎ Accepts env.s256 verifier ac.code_challenge ac.code_challenge_method
unfolding pkce_refusal
pkce_sound env ac verifier h = elim (Bool-cases (ac.code_challenge == "")) [
  | inl open_code ↦ inl ((eq_iff ac.code_challenge "").0 open_code)
  | inr bound ↦
      inr (
        (verify_iff env.s256 verifier ac.code_challenge ac.code_challenge_method).0
          (ground (arith)))
]

secret_sound :
    (o : Option Registry) (ac : AuthCode) (secret : String)
    → secret_refusal o ac secret ≡ none
    → SecretOk o ac.client_id secret
unfolding secret_refusal
secret_sound none ac secret h = tt
secret_sound (some r) ac secret h = ground arith

refusal_sound :
    (cfg : Config) (env : Env) (ac : AuthCode) (x : Exchange)
    → refusal cfg env ac x ≡ none
    → IsEntitled cfg env ac x
unfolding refusal
refusal_sound cfg env ac x h = record {
  client = ground (arith, eq_iff x.client_id "", eq_iff ac.client_id x.client_id);
  redirect =
      rw (← normalize_uri-plain env ac.redirect_uri, ← normalize_uri-plain env x.redirect_uri)
        (ground (
          arith,
          eq_iff x.redirect_uri "",
          eq_iff (normalize_uri env ac.redirect_uri) (normalize_uri env x.redirect_uri),
        ));
  proof = pkce_sound env ac x.code_verifier (ground arith);
  secret = secret_sound cfg.client_registry ac x.client_secret (ground arith);
}

-- Whether a response has status 200.
abbrev pub succeeds : Response → Bool
succeeds r = same r.status 200

-- The response that issues tokens: status 200 and JSON. The cached response of a duplicate request
-- is bytes.
abbrev pub issues_tokens : Response → Bool
issues_tokens r = elim r.body [ json m ↦ same r.status 200 | _ ↦ false ]

issuing_body :
    (n : ℕ) (b : Body) → issues_tokens (record { status = n; body = b }) ≡ true → same n 200 ≡ true
issuing_body n (json m) h = h
issuing_body n (bytes b) h = absurd (cc h)
issuing_body n nothing h = absurd (cc h)
issuing_body n (json_list l) h = absurd (cc h)
issuing_body n (text m) h = absurd (cc h)
issuing_body n (html m) h = absurd (cc h)
issuing_body n (redirect m) h = absurd (cc h)
issuing_body n prometheus h = absurd (cc h)

pub issues_tokens-succeeds : (r : Response) → issues_tokens r ≡ true → succeeds r ≡ true
issues_tokens-succeeds r h = issuing_body r.status r.body h

pub replayed_plain : (now : ℕ) (o : Option ReplayEntry) → issues_tokens (replayed now o) ≡ false
unfolding replayed
replayed_plain now none = refl
replayed_plain now (some ent) = elim (Bool-cases (ltb now ent.expires)) [
  | inl fresh ↦ rw fresh refl
  | inr stale ↦ rw stale refl
]

-- A cached response is the entry's, while that has not expired.
replayed_cached :
    (now : ℕ) (o : Option ReplayEntry)
    → succeeds (replayed now o) ≡ true
    → (ent : ReplayEntry) × (o ≡ some ent)
      × (now < ent.expires)
      × ((replayed now o).body ≡ bytes ent.body)
unfolding replayed
replayed_cached now none h = absurd (cc h)
replayed_cached now (some ent) h = elim (Bool-cases (ltb now ent.expires)) [
  | inl kept ↦ (ent, refl, ground arith, rw kept refl)
  | inr stale ↦ absurd (cc (rw stale at h))
]

-- A refusal does not have status 200.
abbrev pub granted : Option Response → Bool
granted none = false
granted (some r) = succeeds r

pkce_granted :
    (env : Env) (ac : AuthCode) (verifier : String) → granted (pkce_refusal env ac verifier) ≡ false
unfolding pkce_refusal
pkce_granted env ac verifier = elim (Bool-cases (ac.code_challenge == "")) [
  | inl open_code ↦ rw open_code refl
  | inr bound ↦
      rw bound
        (elim (Option-cases
          (Pkce.verify env.s256 verifier ac.code_challenge ac.code_challenge_method)) [
            | inl right ↦ rw right refl
            | inr (e, wrong) ↦ rw wrong refl
          ])
]

secret_granted :
    (o : Option Registry) (ac : AuthCode) (secret : String)
    → granted (secret_refusal o ac secret) ≡ false
unfolding secret_refusal
secret_granted none ac secret = refl
secret_granted (some r) ac secret =
    elim (Bool-cases (
      r.require_secret_for_codes
      && is_confidential r ac.client_id
      && not (validate_secret r ac.client_id secret))) [
        | inl wrong ↦ rw wrong refl
        | inr right ↦ rw right refl
      ]

module _ (cfg : Config) (env : Env) (draws : Draws) (x : Exchange) where
  pub refusal-granted : (ac : AuthCode) → granted (refusal cfg env ac x) ≡ false
  unfolding refusal
  refusal-granted ac =
      elim (Bool-cases (not (x.client_id == "") && not (ac.client_id == x.client_id))) [
        | inl other_client ↦ rw other_client refl
        | inr same_client ↦
            rw same_client
              (elim (Bool-cases (
                not (x.redirect_uri == "")
                && not (normalize_uri env ac.redirect_uri == normalize_uri env x.redirect_uri))) [
                  | inl other_uri ↦ rw other_uri refl
                  | inr same_uri ↦
                      rw same_uri (elim (Option-cases (pkce_refusal env ac x.code_verifier)) [
                        | inl none_yet ↦
                            rw none_yet (secret_granted cfg.client_registry ac x.client_secret)
                        | inr (r, refused) ↦
                            rw refused
                              (ap granted (sym refused) ∙ pkce_granted env ac x.code_verifier)
                      ])
                ])
      ]

  grant_tokens_found :
      (s : State) (g : Grants.Store) (ac : AuthCode) (f : Fetched Database.User)
      → succeeds (grant_tokens cfg env draws s g ac x f).1 ≡ true
      → (u : Database.User) × (f ≡ found u)
  unfolding grant_tokens
  grant_tokens_found s g ac (found u) h = (u, refl)
  grant_tokens_found s g ac missing h = absurd (cc h)
  grant_tokens_found s g ac (broken e) h = absurd (cc h)

  -- What is known of the code, its grant and its user once tokens are issued.
  pub record Known (db : Database.Db) (ac : AuthCode) : Type 0 where
    pub fits : IsEntitled cfg env ac x
    pub user : Database.User
    pub is_user : get_by_id (engine_of env draws 0) env.codec db ac.user_id ≡ found user

  checked-Known :
      (s : State) (g : Grants.Store) (ac : AuthCode) (o : Option Response)
      → granted o ≡ false
      → (o ≡ none → IsEntitled cfg env ac x)
      → succeeds (checked cfg env draws s g ac x o).1 ≡ true
      → Known s.db ac
  unfolding checked
  checked-Known s g ac none plain fits h =
      let (u, e) =
        grant_tokens_found s g ac (get_by_id (engine_of env draws 0) env.codec s.db ac.user_id) h in
      record { fits = fits refl; user = u; is_user = e }
  checked-Known s g ac (some r) plain fits h = absurd (cc (h, plain))

  -- The answer is the cached one of an earlier exchange of the code, which is still kept.
  pub record Replays (cache : Dict ReplayEntry) (r : Response) : Type 0 where
    pub entry : ReplayEntry
    pub cached : get cache x.code ≡ some entry
    pub fresh : draws.clock 1 < entry.expires
    pub same_bytes : r.body ≡ bytes entry.body

  consumed-Known :
      (s : State) (g : Grants.Store) (o : Option AuthCode)
      → succeeds (consumed cfg env draws s x (g, o)).1 ≡ true
      → ((ac : AuthCode) × (o ≡ some ac) × Known s.db ac)
        ⊎ ((o ≡ none) × Replays s.code_replay_cache (consumed cfg env draws s x (g, o)).1)
  unfolding consumed
  consumed-Known s g none h =
      let (entry, cached, fresh, bytes_same) =
        replayed_cached (draws.clock 1) (get s.code_replay_cache x.code) h in
      inr (refl, record { entry = entry; cached = cached; fresh = fresh; same_bytes = bytes_same })
  consumed-Known s g (some ac) h = inl (
    ac,
    refl,
    checked-Known (record s { grant_store = some g }) g ac (refusal cfg env ac x)
        (refusal-granted ac) (refusal_sound cfg env ac x) h,
  )

pub alive-some :
    (now : ℕ) (ac : AuthCode) (o : Option AuthCode)
    → alive (code_expired now) o ≡ some ac
    → (o ≡ some ac) × (now ≤ ac.expires_at)
alive-some now ac none h = absurd (cc h)
alive-some now ac (some other) h = elim (Bool-cases (code_expired now other)) [
  | inl old ↦ absurd (cc (rw old at h))
  | inr fresh ↦
      let same_code : some other ≡ some ac = rw fresh at h in
      let same_term : other.expires_at ≡ ac.expires_at =
        ap (λ o. (or_else o other).expires_at) same_code in
      (same_code, ground arith)
]

alive-none :
    (now : ℕ) (o : Option AuthCode)
    → alive (code_expired now) o ≡ none
    → (o ≡ none) ⊎ ((ac : AuthCode) × (o ≡ some ac) × (ac.expires_at < now))
alive-none now none h = inl refl
alive-none now (some ac) h = elim (Bool-cases (code_expired now ac)) [
  | inl old ↦ inr (ac, refl, ground arith)
  | inr fresh ↦ absurd (cc (rw fresh at h))
]

-- The store held the code, unexpired when it was consumed, the request fits it, and its user is in
-- the database.
abbrev pub FitsHeldCode : Config → Env → Draws → State → Exchange → Type 0
FitsHeldCode cfg env draws s x =
    (g : Grants.Store) × (s.grant_store ≡ some g)
    × (ac : AuthCode) × (get g.codes x.code ≡ some ac)
    × (draws.clock 0 ≤ ac.expires_at)
    × Known cfg env draws x s.db ac

-- The store held no such code, or an expired one.
abbrev pub LacksCode : Draws → State → Exchange → Type 0
LacksCode draws s x =
    (g : Grants.Store) × (s.grant_store ≡ some g)
    × ((get g.codes x.code ≡ none)
        ⊎ ((ac : AuthCode) × (get g.codes x.code ≡ some ac) × (ac.expires_at < draws.clock 0)))

-- When an exchange answers with status 200, there are two cases. In the one the store held the
-- presented code, unexpired at the time it was consumed; the request fits that code (client,
-- redirect URI, PKCE challenge and, where the configuration asks for it, the client's secret); and
-- the code's user is in the database. In the other the store held no such code that was not
-- expired, and the answer is the one that the replay cache holds for the code, byte for byte, in an
-- entry that is not expired: there nothing else of the request is checked.
pub success_only_if_entitled_or_cached :
    (cfg : Config) (env : Env) (draws : Draws) (s : State) (x : Exchange)
    → (handle_authorization_code cfg env draws s x).1.status ≡ 200
    → FitsHeldCode cfg env draws s x
      ⊎ (LacksCode draws s x
          × Replays cfg env draws x s.code_replay_cache
              (handle_authorization_code cfg env draws s x).1)
unfolding handle_authorization_code
success_only_if_entitled_or_cached cfg env draws s x h = elim (Option-cases s.grant_store) [
  | inl unset ↦ absurd (omega (arith, rw (unset, handle_authorization_code) at h))
  | inr (g, set) ↦ elim (Bool-cases (x.code == "")) [
    | inl empty ↦ absurd (
        omega (
          arith,
          rw (empty, handle_authorization_code) at rw (set, handle_authorization_code) at h,
        ))
    | inr given ↦
        let (kept, o) = consume_code (draws.clock 0) x.code g in
        let lookup = (consume_code_lem (draws.clock 0) x.code g).0 in
        let ok = rw given at rw (set, handle_authorization_code) at h in
        elim (consumed-Known cfg env draws x s (consume_code (draws.clock 0) x.code g).0
          (consume_code (draws.clock 0) x.code g).1 (rw ok refl)) [
            | inl (ac, e, k) ↦
                let (held, fresh) = alive-some (draws.clock 0) ac _ (sym lookup ∙ e) in
                inl (g, set, ac, held, fresh, k)
            | inr (e, replays) ↦ inr (
              (g, set, alive-none (draws.clock 0) _ (sym lookup ∙ e)),
              rw (set, handle_authorization_code) (rw (given, handle_authorization_code) replays),
            )
          ]
  ]
]

bytes_plain : (r : Response) (b : String) → r.body ≡ bytes b → issues_tokens r ≡ false
bytes_plain r b e = rw e refl

-- Where new tokens are issued, the answer is no cached one: the store held a code that the request
-- fits.
pub tokens_only_if_entitled :
    (cfg : Config) (env : Env) (draws : Draws) (s : State) (x : Exchange)
    → issues_tokens (handle_authorization_code cfg env draws s x).1 ≡ true
    → FitsHeldCode cfg env draws s x
tokens_only_if_entitled cfg env draws s x h =
    let r = (handle_authorization_code cfg env draws s x).1 in
    elim (success_only_if_entitled_or_cached cfg env draws s x
      (ground (arith, issues_tokens-succeeds r h))) [
        | inl entitled ↦ entitled
        | inr (unknown, replays) ↦
            absurd (cc (h, bytes_plain r replays.entry.body replays.same_bytes))
      ]
