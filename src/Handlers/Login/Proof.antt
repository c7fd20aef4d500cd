-- ===== src/Handlers/Login/Proof.antt =====
-- Whom the login page signs in.
use fake_auth.Handlers.SignIn.Opening.{MayOpen, open_session-MayOpen}
use fake_auth.Base.{
  String, given_or, ◌≡◌, refl, ◌⊎◌, inl, inr, true, ◌||◌, ◌==◌, Option, none, some, [], ◌∷◌, ◌++◌,
  Bool-cases, Option-cases,
}
use fake_auth.Text.{or_text}
use fake_auth.Dict.{get}
use fake_auth.Web.{Request, first, value_of, query_value, form_value, get_param}
use fake_auth.Database
use fake_auth.Grants
use fake_auth.Audit.{log_login}
use fake_auth.Handlers.{Url, Env, Draws, Config, State, counted, logged}
use fake_auth.Handlers.SignIn.{Parameters, password_holder, open_session}
use fake_auth.Handlers.SignIn.Proof.{KnowsPassword, Offers, offered, password_holder_sound}
use fake_auth.Handlers.Login.{
  with_grant, deliver, wants_token, wants_id_token, signed_in, post_login, login_parameters,
  handle_login,
}

-- At most one code more, for the user.
abbrev MayOffer : Draws → Parameters → Database.User → State → State → Type 0
MayOffer draws p u s after = (after.grant_store ≡ s.grant_store) ⊎ Offers draws p u s after

-- Grants and sessions as they were, or a session for a user who gave the password, and at most one
-- code more.
abbrev Result : Env → Draws → State → Parameters → State → Type 0
Result env draws s p after =
    ((after.grant_store ≡ s.grant_store) × (after.session_store ≡ s.session_store))
    ⊎ ((u : Database.User) × KnowsPassword env draws s.db p.username p.password u
        × (after.session_store ≡ (open_session draws u s.session_store).0)
        × MayOffer draws p u s after)

module _ (cfg : Config) (env : Env) (draws : Draws) (p : Parameters) where
  with_grant-MayOffer :
      (s : State) (url : Url) (u : Database.User) (o : Option Grants.Store)
      → s.grant_store ≡ o
      → MayOffer draws p u s (with_grant env draws s url p u o).0
        × ((with_grant env draws s url p u o).0.session_store ≡ s.session_store)
  unfolding with_grant
  with_grant-MayOffer s url u none e = (inl refl, refl)
  with_grant-MayOffer s url u (some g) e = (inr (offered draws p u s _ g e refl), refl)

  deliver-MayOffer :
      (s : State) (url : Url) (u : Database.User)
      → MayOffer draws p u s (deliver cfg env draws s url p u).0
        × ((deliver cfg env draws s url p u).0.session_store ≡ s.session_store)
  unfolding deliver
  deliver-MayOffer s url u =
      elim (Bool-cases (wants_token p.response_type || wants_id_token p.response_type)) [
        | inl tokens ↦ rw (tokens, deliver) (inl refl, refl)
        | inr code ↦ rw (code, deliver) (with_grant-MayOffer s url u s.grant_store refl)
      ]

  -- The state in which the answer is made.
  abbrev after_open : State → Database.User → State
  after_open s u = record s {
    session_store = (open_session draws u s.session_store).0;
    events =
        (s.events ++ counted "login_attempts" ("success" ∷ []) ∷ [])
        ++ logged (log_login (draws.clock 9) u.id u.email p.client_id true none) ∷ [];
  }

  signed_in-Result :
      (s : State) (o : Option Database.User)
      → password_holder env draws s.db p.username p.password ≡ o
      → Result env draws s p (signed_in cfg env draws s p o).0
  unfolding signed_in
  signed_in-Result s none e = inl (refl, refl)
  signed_in-Result s (some u) e =
      let knows = password_holder_sound env draws s.db p.username p.password u e in
      elim (Option-cases (env.parse_url p.redirect_uri)) [
        | inl bad ↦ rw (bad, signed_in) (inr (u, knows, refl, inl refl))
        | inr (url, parsed) ↦
            let (may, kept) = deliver-MayOffer (after_open s u) url u in
            rw (parsed, signed_in)
              (inr (
                u,
                knows,
                kept,
                elim may [
                  | inl same ↦ inl same
                  | inr o ↦ inr (record {
                    store = o.store;
                    kept = o.kept;
                    configured = o.configured;
                    saved = o.saved;
                    codes = o.codes;
                    refresh = o.refresh;
                    devices = o.devices;
                    terms = o.terms;
                  })
                ],
              ))
      ]

login-Result :
    (cfg : Config) (env : Env) (draws : Draws) (s : State) (r : Request)
    → Result env draws s (login_parameters r) (handle_login cfg env draws s r).0
unfolding handle_login post_login
login-Result cfg env draws s r =
    let p = login_parameters r in
    elim (Bool-cases (p.redirect_uri == "")) [
      | inl empty ↦ rw (empty, handle_login) (inl (refl, refl))
      | inr given ↦ elim (Bool-cases (r.method == "POST")) [
        | inr shown ↦ rw (given, shown, handle_login) (inl (refl, refl))
        | inl posted ↦ elim (Bool-cases (p.username == "" || p.password == "")) [
          | inl missing ↦ rw (given, posted, missing, handle_login) (inl (refl, refl))
          | inr full ↦
              rw (given, posted, full, handle_login) (signed_in-Result cfg env draws p s _ refl)
        ]
      ]
    ]

-- The value of the query, or of the form where the query has none.
abbrev pub sent : Request → String → String
sent r k = given_or (first (get r.query k)) (first (get r.form k))

-- What the request asks for.
abbrev pub wanted : Request → Parameters
wanted r = record {
  response_type = sent r "response_type";
  client_id = sent r "client_id";
  redirect_uri = sent r "redirect_uri";
  scope = given_or (sent r "scope") "openid";
  state = sent r "state";
  username = first (get r.form "username");
  password = first (get r.form "password");
  prompt = "";
  login_hint = sent r "login_hint";
  nonce = sent r "nonce";
  audience = sent r "audience";
  code_challenge = sent r "code_challenge";
  code_challenge_method = given_or (sent r "code_challenge_method") "S256";
}

-- A request to /login leaves the grants and the sessions as they were, or its user gave the right
-- password. Then exactly one session is opened, for that user and a full term, and expired ones are
-- dropped, unless there is no session store or no random bytes could be drawn; and at most one code
-- is saved, which carries that user and the request's client, redirect URI, scope, nonce, audience
-- and challenge, with openid for a missing scope.
pub page_after_login_only_if_verified :
    (cfg : Config) (env : Env) (draws : Draws) (s : State) (r : Request)
    → let p = wanted r in
      let after = (handle_login cfg env draws s r).0 in
      ((after.grant_store ≡ s.grant_store) × (after.session_store ≡ s.session_store))
      ⊎ ((u : Database.User) × KnowsPassword env draws s.db p.username p.password u
          × MayOpen draws u s.session_store after.session_store
          × ((after.grant_store ≡ s.grant_store) ⊎ Offers draws p u s after))
unfolding login_parameters get_param form_value query_value value_of or_text
page_after_login_only_if_verified cfg env draws s r = elim (login-Result cfg env draws s r) [
  | inl same ↦ inl same
  | inr (u, knows, opened, may) ↦
      inr (u, knows, rw opened (open_session-MayOpen draws u s.session_store), may)
]
