-- ===== src/Handlers/Authorize/Liveness.antt =====
-- The code flow from end to end: sign in at /authorize, then exchange the code at the token endpoint.
use fake_auth.Base.{
  none, ◌+◌, ◌≤◌, String, ◌≡◌, refl, sym, ap, ◌∙◌, ◌≢◌, ◌⊎◌, inr, true, Option, some, eq_iff,
  eq_of_ne,
}
use Prim.Native.String
use text.Mathlib.TextLemmas.{append-eq-nil_iff}
use fake_auth.Text.{contains, or_text}
use fake_auth.Dict.{get, get-put_self}
use fake_auth.Clients.{Registry}
use fake_auth.Pkce.Laws.{Accepts}
use fake_auth.Web.{Request, first, value_of, query_value}
use fake_auth.Database
use fake_auth.Database.{found, get_by_id}
use fake_auth.Grants
use fake_auth.Grants.{AuthCode, save_code}
use fake_auth.Handlers.{Url, Env, Draws, Config, State, engine_of}
use fake_auth.Handlers.SignIn.{Parameters, new_code, code_for, offer, with_code}
use fake_auth.Handlers.SignIn.Redirect.{Redirects, with_code-Redirects}
use fake_auth.Handlers.SignIn.Proof.{KnowsPassword, password_holder_complete}
use fake_auth.Handlers.Authorize.{
  with_credentials, by_password, code_flow, flow, redirect_ok, scope_ok, with_defaults,
  authorize_parameters, authorize, handle_authorize,
}
use fake_auth.Handlers.Authorize.Consent.{asked, AllowsRedirect, AllowsScope}
use fake_auth.Handlers.CodeExchange.{Exchange, handle_authorization_code}
use fake_auth.Handlers.CodeExchange.Soundness.{plain_uri, SecretOk, issues_tokens}
use fake_auth.Handlers.CodeExchange.Liveness.{Signs, entitled_exchange_succeeds}

-- The checks that a request for a code passes, with the right password of the user.
record Passes (cfg : Config) (env : Env) (draws : Draws) (s : State) (p : Parameters)
    (u : Database.User) (url : Url) : Type 0 where
  pub code : p.response_type ≡ "code"
  pub target : p.redirect_uri ≢ ""
  pub name : p.username ≢ ""
  pub secret : p.password ≢ ""
  pub redirect : redirect_ok cfg.client_registry p ≡ true
  pub scope : scope_ok env cfg.client_registry (with_defaults p) ≡ true
  pub parsed : env.parse_url p.redirect_uri ≡ some url
  pub knows : KnowsPassword env draws s.db p.username p.password u

-- A request for a code that the registry allows, with the right password of the user.
pub record AsksForCode (cfg : Config) (env : Env) (draws : Draws) (s : State) (r : Request)
    (u : Database.User) (url : Url) : Type 0 where
  pub code : (asked r).response_type ≡ "code"
  pub target : (asked r).redirect_uri ≢ ""
  pub name : (asked r).username ≢ ""
  pub secret : (asked r).password ≢ ""
  pub redirect :
      AllowsRedirect cfg.client_registry (first (get r.query "client_id")) (asked r).redirect_uri
  pub scope : AllowsScope env cfg.client_registry (asked r).client_id (asked r).scope
  pub parsed : env.parse_url (asked r).redirect_uri ≡ some url
  pub knows : KnowsPassword env draws s.db (asked r).username (asked r).password u

redirect_ok_complete :
    (o : Option Registry) (p : Parameters)
    → AllowsRedirect o p.client_id p.redirect_uri
    → redirect_ok o p ≡ true
unfolding redirect_ok
redirect_ok_complete none p h = refl
redirect_ok_complete (some g) p h = h

scope_ok_complete :
    (env : Env) (o : Option Registry) (p : Parameters)
    → AllowsScope env o p.client_id p.scope
    → scope_ok env o p ≡ true
unfolding scope_ok
scope_ok_complete env none p h = refl
scope_ok_complete env (some g) p h = h

asks-Passes :
    (cfg : Config) (env : Env) (draws : Draws) (s : State) (r : Request) (u : Database.User)
    (url : Url)
    → AsksForCode cfg env draws s r u url
    → Passes cfg env draws s (authorize_parameters r) u url
unfolding authorize_parameters with_defaults query_value value_of or_text
asks-Passes cfg env draws s r u url a = record {
  code = a.code;
  target = a.target;
  name = a.name;
  secret = a.secret;
  redirect = redirect_ok_complete cfg.client_registry (authorize_parameters r) a.redirect;
  scope = scope_ok_complete env cfg.client_registry (asked r) a.scope;
  parsed = a.parsed;
  knows = a.knows;
}

-- The exchange presents the code with the client and redirect URI of the request, the verifier of
-- its challenge, and the client's secret where one is required.
pub record Presents (cfg : Config) (env : Env) (draws : Draws) (p : Parameters) (x : Exchange)
    : Type 0 where
  pub code : x.code ≡ String.◌++◌ "ac_" (draws.uuid 0)
  pub client : p.client_id ≡ x.client_id
  pub redirect : p.redirect_uri ≡ x.redirect_uri
  pub proof :
      (p.code_challenge ≡ "")
      ⊎ Accepts env.s256 x.code_verifier p.code_challenge p.code_challenge_method
  pub secret : SecretOk cfg.client_registry p.client_id x.client_secret

module _ (cfg : Config) (env : Env) (draws : Draws) (s : State) (u : Database.User) (url : Url)
    (g : Grants.Store) (set : s.grant_store ≡ some g) where
  code_flow-offers :
      (p : Parameters) (cookie : Option String)
      → p.username ≢ ""
      → p.password ≢ ""
      → KnowsPassword env draws s.db p.username p.password u
      → let r = code_flow cfg env draws s url p cookie in
        (r.0.grant_store ≡ some (offer draws p u g))
        × (r.0.db ≡ s.db)
        × (r.1.response ≡ with_code env draws url p)
  unfolding code_flow by_password with_credentials
  code_flow-offers p cookie name secret knows =
      rw
        (
          eq_of_ne p.username "" name,
          eq_of_ne p.password "" secret,
          code_flow,
          set,
          by_password,
          password_holder_complete env draws s.db p.username p.password u knows,
        )
        (refl, refl, refl)

  authorize-offers :
      (p : Parameters) (cookie : Option String)
      → Passes cfg env draws s p u url
      → let r = authorize cfg env draws s p cookie in
        (r.0.grant_store ≡ some (offer draws (with_defaults p) u g))
        × (r.0.db ≡ s.db)
        × (r.1.response ≡ with_code env draws url (with_defaults p))
  unfolding authorize flow with_defaults contains
  authorize-offers p cookie asks =
      rw
        (
          eq_of_ne p.redirect_uri "" asks.target,
          asks.redirect,
          asks.scope,
          authorize,
          asks.parsed,
          flow,
          asks.code,
        )
        (code_flow-offers (with_defaults p) cookie asks.name asks.secret asks.knows)

new_code_ne : (id : String) → String.◌++◌ "ac_" id ≢ ""
new_code_ne id e = absurd (cc ((eq_iff "ac_" "").1 (append-eq-nil_iff.0 e).0))

-- Where a grant store is configured, tokens can be signed and the database still yields the user: a
-- request to /authorize for a code that the registry allows, with the right password, is answered
-- with status 302 and the redirect URI, whose query carries a code and the request's state; and an
-- exchange that presents this code with the client, redirect URI, verifier and secret that it is
-- bound to, before the code's term ends, is answered with tokens.
pub authorize_then_exchange :
    (cfg : Config) (env : Env) (draws later : Draws) (s : State) (r : Request) (x : Exchange)
    (u now_u : Database.User) (url : Url) (g : Grants.Store)
    → s.grant_store ≡ some g
    → AsksForCode cfg env draws s r u url
    → Presents cfg env draws (asked r) x
    → later.clock 0 ≤ draws.clock 2 + g.code_ttl
    → get_by_id (engine_of env later 0) env.codec s.db u.id ≡ found now_u
    → Signs env.jwt
    → let signed_in = handle_authorize cfg env draws s r in
      Redirects env url x.code (first (get r.query "state")) signed_in.1.response
      × (issues_tokens (handle_authorization_code cfg env later signed_in.0 x).1 ≡ true)
unfolding handle_authorize offer save_code code_for authorize_parameters with_defaults query_value
    value_of or_text
authorize_then_exchange cfg env draws later s r x u now_u url g set asks presents early known
      signs =
    let p = authorize_parameters r in
    let q = asked r in
    let (offered, kept, located) =
      authorize-offers cfg env draws s u url g set p r.cookie
        (asks-Passes cfg env draws s r u url asks) in
    (
      rw (located, presents.code) (with_code-Redirects env draws url q),
      entitled_exchange_succeeds cfg env later _ _
          (record (code_for draws q u) { expires_at = draws.clock 2 + g.code_ttl }) x now_u offered
          (λ e. new_code_ne (draws.uuid 0) (sym presents.code ∙ e))
          (rw presents.code (get-put_self _ (new_code draws) _)) early
          (record {
            client = inr presents.client;
            redirect = inr (ap (plain_uri env) presents.redirect);
            proof = presents.proof;
            secret = presents.secret;
          })
          (ap (λ d. get_by_id (engine_of env later 0) env.codec d u.id) kept ∙ known) signs,
    )
