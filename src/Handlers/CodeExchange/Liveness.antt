-- ===== src/Handlers/CodeExchange/Liveness.antt =====
-- Who is entitled to tokens gets them.
use fake_auth.Base.{
  ◌≤◌, String, ◌≡◌, refl, ap, ◌∙◌, ◌≢◌, ◌⊎◌, inl, inr, true, false, not, ◌&&◌, ◌==◌, Option, none,
  some, arith, eq_iff, Bool-cases, eq_of_ne,
}
use fake_auth.Dict.{Dict, get}
use fake_auth.Dict.Range.{alive}
use fake_auth.Json.{Value}
use fake_auth.Pkce.Laws.{Accepts, verify_iff}
use fake_auth.Token.{Jwt, issue}
use fake_auth.Database
use fake_auth.Database.{found, get_by_id}
use fake_auth.Clients.{Registry}
use fake_auth.Grants
use fake_auth.Grants.{AuthCode, consume_code, code_expired}
use fake_auth.Grants.OneTime.{consume_code_lem}
use fake_auth.Handlers.{Env, Draws, Config, State, engine_of}
use fake_auth.Handlers.CodeExchange.{
  Exchange, normalize_uri, pkce_refusal, secret_refusal, refusal, issued, grant_tokens, checked,
  consumed, handle_authorization_code,
}
use fake_auth.Handlers.CodeExchange.Soundness.{
  normalize_uri-plain, SecretOk, IsEntitled, issues_tokens,
}

-- Whatever is to be signed can be signed.
abbrev pub Signs : Jwt → Type 0
Signs jwt =
    (kid : String) (claims : Dict Value) → (token : String) × (jwt.sign kid claims ≡ some token)

pkce_complete :
    (env : Env) (ac : AuthCode) (verifier : String)
    → (ac.code_challenge ≡ "")
      ⊎ Accepts env.s256 verifier ac.code_challenge ac.code_challenge_method
    → pkce_refusal env ac verifier ≡ none
unfolding pkce_refusal
pkce_complete env ac verifier (inl open_code) = rw ((eq_iff ac.code_challenge "").1 open_code) refl
pkce_complete env ac verifier (inr accepts) = elim (Bool-cases (ac.code_challenge == "")) [
  | inl open_code ↦ rw (open_code, pkce_refusal) refl
  | inr bound ↦
      rw
        (bound, (verify_iff env.s256 verifier ac.code_challenge ac.code_challenge_method).1 accepts)
        refl
]

secret_complete :
    (o : Option Registry) (ac : AuthCode) (secret : String)
    → SecretOk o ac.client_id secret
    → secret_refusal o ac secret ≡ none
unfolding secret_refusal
secret_complete none ac secret h = refl
secret_complete (some r) ac secret h = ground arith

refusal_complete :
    (cfg : Config) (env : Env) (ac : AuthCode) (x : Exchange)
    → IsEntitled cfg env ac x
    → refusal cfg env ac x ≡ none
unfolding refusal
refusal_complete cfg env ac x h =
    let client = h.client in
    let redirect : (x.redirect_uri ≡ "")
        ⊎ (normalize_uri env ac.redirect_uri ≡ normalize_uri env x.redirect_uri) =
      rw (normalize_uri-plain env ac.redirect_uri, normalize_uri-plain env x.redirect_uri)
        h.redirect in
    let client_fits : not (x.client_id == "") && not (ac.client_id == x.client_id) ≡ false =
      ground (arith, eq_iff x.client_id "", eq_iff ac.client_id x.client_id) in
    let redirect_fits : not (x.redirect_uri == "")
          && not (normalize_uri env ac.redirect_uri == normalize_uri env x.redirect_uri)
        ≡ false =
      ground (
        arith,
        eq_iff x.redirect_uri "",
        eq_iff (normalize_uri env ac.redirect_uri) (normalize_uri env x.redirect_uri),
      ) in
    rw (client_fits, redirect_fits, pkce_complete env ac x.code_verifier h.proof)
      (secret_complete cfg.client_registry ac x.client_secret h.secret)

issued-issues_tokens :
    (cfg : Config) (env : Env) (draws : Draws) (s : State) (g : Grants.Store) (ac : AuthCode)
    (x : Exchange) (u : Database.User) (session_id : String) (o : Option String) (token : String)
    → o ≡ some token
    → issues_tokens (issued cfg env draws s g ac x u session_id o).1 ≡ true
unfolding issued
issued-issues_tokens cfg env draws s g ac x u session_id o token e = rw (e, issued) refl

consumed-issues_tokens :
    (cfg : Config) (env : Env) (draws : Draws) (s : State) (g : Grants.Store) (ac : AuthCode)
    (x : Exchange) (u : Database.User) (o : Option AuthCode)
    → o ≡ some ac
    → refusal cfg env ac x ≡ none
    → get_by_id (engine_of env draws 0) env.codec s.db ac.user_id ≡ found u
    → Signs env.jwt
    → issues_tokens (consumed cfg env draws s x (g, o)).1 ≡ true
unfolding consumed checked grant_tokens issue
consumed-issues_tokens cfg env draws s g ac x u o e fits known signs =
    rw (e, consumed, fits, checked, known, grant_tokens)
      (issued-issues_tokens cfg env draws _ g ac x u _ _ _ (signs _ _).1)

-- A request that fits an unexpired code of the store, whose user the database yields, is answered
-- with tokens, if tokens can be signed.
pub entitled_exchange_succeeds :
    (cfg : Config) (env : Env) (draws : Draws) (s : State) (g : Grants.Store) (ac : AuthCode)
    (x : Exchange) (u : Database.User)
    → s.grant_store ≡ some g
    → x.code ≢ ""
    → get g.codes x.code ≡ some ac
    → draws.clock 0 ≤ ac.expires_at
    → IsEntitled cfg env ac x
    → get_by_id (engine_of env draws 0) env.codec s.db ac.user_id ≡ found u
    → Signs env.jwt
    → issues_tokens (handle_authorization_code cfg env draws s x).1 ≡ true
unfolding handle_authorization_code
entitled_exchange_succeeds cfg env draws s g ac x u set given has early entitled known signs =
    let taken : (consume_code (draws.clock 0) x.code g).1 ≡ some ac =
      (consume_code_lem (draws.clock 0) x.code g).0
      ∙ ap (alive (code_expired (draws.clock 0))) has
      ∙ ground arith in
    rw (set, handle_authorization_code)
      (rw (eq_of_ne x.code "" given, handle_authorization_code)
        (consumed-issues_tokens cfg env draws s _ ac x u _ taken
          (refusal_complete cfg env ac x entitled) known signs))
