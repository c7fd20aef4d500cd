-- ===== src/Handlers/Authorize/Consent.antt =====
-- Whom the authorization endpoint gives a code.
use fake_auth.Base.{
  ap, ◌∙◌, ◌≤◌, given_or, String, ◌≡◌, refl, ◌⊎◌, inl, inr, true, not, ◌&&◌, ◌||◌, ◌==◌, Option,
  none, some, Bool-cases, arith,
}
use fake_auth.Text.{contains, or_text}
use fake_auth.Dict.{get}
use fake_auth.Clients.{Registry, validate_redirect_uri, validate_scope}
use fake_auth.Web.{Request, first, value_of, query_value}
use fake_auth.Database
use fake_auth.Database.{Fetched, found, missing, broken, get_by_id}
use fake_auth.Grants
use fake_auth.Sessions
use fake_auth.Sessions.{Session, get_session}
use fake_auth.Handlers.{Url, Env, Draws, Config, State, engine_of}
use fake_auth.Handlers.SignIn.{Parameters, password_holder}
use fake_auth.Handlers.SignIn.Proof.{
  KnowsPassword, HasSession, Offers, offered, password_holder_sound, session_held,
}
use fake_auth.Handlers.Authorize.{
  with_credentials, by_password, login_page, for_user, for_session, by_session, code_flow, flow,
  redirect_ok, scope_ok, with_defaults, authorize_parameters, authorize, handle_authorize,
}

-- The user has given the password, or has a session.
abbrev pub SignedIn : Env → Draws → State → Parameters → Option String → Database.User → Type 0
SignedIn env draws s p cookie u =
    KnowsPassword env draws s.db p.username p.password u ⊎ HasSession env draws s cookie u

-- Nothing was saved, or one code for a user who is signed in.
abbrev Result : Env → Draws → State → Parameters → Option String → State → Type 0
Result env draws s p cookie after =
    (after.grant_store ≡ s.grant_store)
    ⊎ ((u : Database.User) × Offers draws p u s after × SignedIn env draws s p cookie u)

module _ (cfg : Config) (env : Env) (draws : Draws) (s : State) (url : Url) (p : Parameters)
    (cookie : Option String) where
  with_credentials-Result :
      (g : Grants.Store) (o : Option Database.User)
      → s.grant_store ≡ some g
      → o ≡ password_holder env draws s.db p.username p.password
      → Result env draws s p cookie (with_credentials env draws s g url p o).0
  unfolding with_credentials
  with_credentials-Result g none set e = inl refl
  with_credentials-Result g (some u) set e = inr (
    u,
    offered draws p u s _ g set refl,
    inl (password_holder_sound env draws s.db p.username p.password u (cc)),
  )

  for_user-Result :
      (sid : String) (ss kept : Sessions.Store) (x : Session) (f : Fetched Database.User)
      → cookie ≡ some sid
      → s.session_store ≡ some ss
      → (held : Session) → get ss.sessions sid ≡ some held
      → draws.clock 4 ≤ held.expires_at
      → draws.clock 5 ≤ held.expires_at
      → held.user_id ≡ x.user_id
      → get_by_id (engine_of env draws 0) env.codec s.db x.user_id ≡ f
      → (o : Option Grants.Store) → s.grant_store ≡ o
      → Result env draws s p cookie
          (for_user cfg env draws (record s { session_store = some kept }) url p f o).0
  unfolding for_user login_page
  for_user-Result sid ss kept x missing c set held h m n own user o e = inl refl
  for_user-Result sid ss kept x (broken er) c set held h m n own user o e = inl refl
  for_user-Result sid ss kept x (found u) c set held h m n own user none e = inl refl
  for_user-Result sid ss kept x (found u) c set held h m n own user (some g) e = inr (
    u,
    offered draws p u s _ g e refl,
    inr (record {
      sid = sid;
      sessions = ss;
      session = held;
      presented = c;
      configured = set;
      held = h;
      unswept = m;
      unexpired = n;
      user = ap (get_by_id (engine_of env draws 0) env.codec s.db) own ∙ user;
    }),
  )

  for_session-Result :
      (sid : String) (ss : Sessions.Store) (r : Sessions.Store × Option Session)
      → cookie ≡ some sid
      → s.session_store ≡ some ss
      → (get_session (draws.clock 4) (draws.clock 5) (draws.clock 6) sid ss).1 ≡ r.1
      → Result env draws s p cookie (for_session cfg env draws s url p r).0
  unfolding for_session login_page
  for_session-Result sid ss (kept, none) c set live = inl refl
  for_session-Result sid ss (kept, some x) c set live =
      let (held, h, m, n, own) =
        session_held (draws.clock 4) (draws.clock 5) (draws.clock 6) sid ss x live in
      for_user-Result sid ss kept x _ c set held h m n own refl s.grant_store refl

  by_session-Result :
      (o : Option Sessions.Store) (k : Option String)
      → s.session_store ≡ o
      → cookie ≡ k
      → Result env draws s p cookie (by_session cfg env draws s url p o k).0
  unfolding by_session login_page
  by_session-Result none k set c = inl refl
  by_session-Result (some ss) none set c = inl refl
  by_session-Result (some ss) (some sid) set c =
      elim (Bool-cases (p.username == "" && p.password == "" && not (sid == ""))) [
        | inl alone ↦ rw (alone, by_session) (for_session-Result sid ss _ c set refl)
        | inr given ↦ rw (given, by_session) (inl refl)
      ]

  by_password-Result :
      (o : Option Grants.Store)
      → s.grant_store ≡ o
      → Result env draws s p cookie (by_password env draws s url p o).0
  unfolding by_password
  by_password-Result none e = inl refl
  by_password-Result (some g) e = with_credentials-Result g _ e refl

  code_flow-Result : Result env draws s p cookie (code_flow cfg env draws s url p cookie).0
  unfolding code_flow
  code_flow-Result = elim (Bool-cases (not (p.username == "") && not (p.password == ""))) [
    | inl given ↦ rw (given, code_flow) (by_password-Result s.grant_store refl)
    | inr absent ↦ elim (Bool-cases (p.prompt == "none" && p.username == "" && p.password == "")) [
      | inl silent ↦ rw (absent, silent, code_flow) (inl refl)
      | inr asks ↦ rw (absent, asks, code_flow) (by_session-Result s.session_store cookie refl refl)
    ]
  ]

flow-Result :
    (cfg : Config) (env : Env) (draws : Draws) (s : State) (p : Parameters) (cookie : Option String)
    (o : Option Url)
    → Result env draws s p cookie (flow cfg env draws s p cookie o).0
unfolding flow
flow-Result cfg env draws s p cookie none = inl refl
flow-Result cfg env draws s p cookie (some url) =
    elim (Bool-cases (
      p.response_type == "token"
      || p.response_type == "id_token"
      || contains p.response_type "token"
      || contains p.response_type "id_token")) [
        | inl implicit ↦ rw (implicit, flow) (inl refl)
        | inr other ↦ elim (Bool-cases (not (p.response_type == "code"))) [
          | inl unknown ↦ rw (other, unknown, flow) (inl refl)
          | inr code ↦ rw (other, code, flow) (code_flow-Result cfg env draws s url p cookie)
        ]
      ]

-- As `Result`, with what the registry says.
abbrev Allowed : Config → Env → Draws → State → Parameters → Option String → State → Type 0
Allowed cfg env draws s p cookie after =
    (after.grant_store ≡ s.grant_store)
    ⊎ ((u : Database.User) × Offers draws (with_defaults p) u s after
        × (redirect_ok cfg.client_registry p ≡ true)
        × (scope_ok env cfg.client_registry (with_defaults p) ≡ true)
        × SignedIn env draws s p cookie u)

authorize-Allowed :
    (cfg : Config) (env : Env) (draws : Draws) (s : State) (p : Parameters) (cookie : Option String)
    → Allowed cfg env draws s p cookie (authorize cfg env draws s p cookie).0
unfolding authorize with_defaults
authorize-Allowed cfg env draws s p cookie = elim (Bool-cases (p.redirect_uri == "")) [
  | inl empty ↦ rw (empty, authorize) (inl refl)
  | inr given ↦ elim (Bool-cases (not (redirect_ok cfg.client_registry p))) [
    | inl foreign ↦ rw (given, foreign, authorize) (inl refl)
    | inr known ↦ elim (Bool-cases (not (scope_ok env cfg.client_registry (with_defaults p)))) [
      | inl excess ↦ rw (given, known, excess, authorize) (inl refl)
      | inr fits ↦
          rw (given, known, fits, authorize)
            (elim (flow-Result cfg env draws s (with_defaults p) cookie _) [
              | inl same ↦ inl same
              | inr (u, offers, signed_in) ↦ inr (u, offers, ground arith, ground arith, signed_in)
            ])
    ]
  ]
]

-- What the query asks for.
abbrev pub asked : Request → Parameters
asked r = record {
  response_type = first (get r.query "response_type");
  client_id = given_or (first (get r.query "client_id")) "e2e-test";
  redirect_uri = first (get r.query "redirect_uri");
  scope = given_or (first (get r.query "scope")) "openid";
  state = first (get r.query "state");
  username = first (get r.query "username");
  password = first (get r.query "password");
  prompt = first (get r.query "prompt");
  login_hint = first (get r.query "login_hint");
  nonce = first (get r.query "nonce");
  audience = first (get r.query "audience");
  code_challenge = first (get r.query "code_challenge");
  code_challenge_method = given_or (first (get r.query "code_challenge_method")) "S256";
}

-- What the registry, if there is one, allows a client.
abbrev pub AllowsRedirect : Option Registry → String → String → Type 0
AllowsRedirect none client_id uri = Unit
AllowsRedirect (some g) client_id uri = validate_redirect_uri g client_id uri ≡ true

abbrev pub AllowsScope : Env → Option Registry → String → String → Type 0
AllowsScope env none client_id scope = Unit
AllowsScope env (some g) client_id scope = validate_scope env.library.space g client_id scope ≡ true

redirect_ok-AllowsRedirect :
    (o : Option Registry) (p : Parameters)
    → redirect_ok o p ≡ true
    → AllowsRedirect o p.client_id p.redirect_uri
unfolding redirect_ok
redirect_ok-AllowsRedirect none p h = tt
redirect_ok-AllowsRedirect (some g) p h = h

scope_ok-AllowsScope :
    (env : Env) (o : Option Registry) (p : Parameters)
    → scope_ok env o p ≡ true
    → AllowsScope env o p.client_id p.scope
unfolding scope_ok
scope_ok-AllowsScope env none p h = tt
scope_ok-AllowsScope env (some g) p h = h

-- A request to /authorize leaves the grants as they were, or it saves exactly one code and drops
-- those that have expired. The code carries the client, redirect URI, scope, nonce, audience and
-- challenge of the query, with e2e-test for a missing client and openid for a missing scope. If
-- there is a registry, it allows the redirect URI for the client id as the query has it, where a
-- missing one is the empty text, and the scope for the client of the code. The code's user gave the
-- right password in this request, or the session cookie names a session of that user that the store
-- holds and that has not expired.
pub consent_only_if_authenticated :
    (cfg : Config) (env : Env) (draws : Draws) (s : State) (r : Request)
    → let p = asked r in
      let after = (handle_authorize cfg env draws s r).0 in
      (after.grant_store ≡ s.grant_store)
      ⊎ ((u : Database.User) × Offers draws p u s after
          × AllowsRedirect cfg.client_registry (first (get r.query "client_id")) p.redirect_uri
          × AllowsScope env cfg.client_registry p.client_id p.scope
          × SignedIn env draws s p r.cookie u)
unfolding handle_authorize with_defaults authorize_parameters query_value value_of or_text
consent_only_if_authenticated cfg env draws s r =
    let p = authorize_parameters r in
    elim (authorize-Allowed cfg env draws s p r.cookie) [
      | inl same ↦ inl same
      | inr (u, offers, redirect, scope, signed_in) ↦ inr (
        u,
        offers,
        redirect_ok-AllowsRedirect cfg.client_registry p redirect,
        scope_ok-AllowsScope env cfg.client_registry (with_defaults p) scope,
        signed_in,
      )
    ]
