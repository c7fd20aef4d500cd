-- ===== src/Handlers/Authorize/Reads.antt =====
-- The authorization endpoint only reads the database.
use fake_auth.Base.{String, ◌≡◌, refl, Option, none, some, arith}
use fake_auth.Web.{Request}
use fake_auth.Database
use fake_auth.Database.{Fetched, found, missing, broken, get_by_id}
use fake_auth.Grants
use fake_auth.Sessions
use fake_auth.Sessions.{Session, get_session}
use fake_auth.Handlers.{Url, Env, Draws, Config, State, Answer}
use fake_auth.Handlers.SignIn.{Parameters}
use fake_auth.Handlers.Authorize.{
  with_credentials, login_page, by_password, for_user, for_session, by_session, code_flow, flow,
  authorize, handle_authorize, with_defaults, authorize_parameters,
}

module _ (cfg : Config) (env : Env) (draws : Draws) (s : State) (p : Parameters) where
  -- The result has the database of the request's state.
  abbrev Same : State × Answer → Type 0
  Same r = r.0.db ≡ s.db

  with_credentials-Same :
      (url : Url) (g : Grants.Store) (o : Option Database.User)
      → Same (with_credentials env draws s g url p o)
  unfolding with_credentials
  with_credentials-Same url g none = refl
  with_credentials-Same url g (some u) = refl

  by_password-Same : (url : Url) (o : Option Grants.Store) → Same (by_password env draws s url p o)
  unfolding by_password
  by_password-Same url none = refl
  by_password-Same url (some g) = with_credentials-Same url g _

  for_user-Same :
      (url : Url) (kept : Option Sessions.Store) (f : Fetched Database.User)
      (o : Option Grants.Store)
      → Same (for_user cfg env draws (record s { session_store = kept }) url p f o)
  unfolding for_user login_page
  for_user-Same url kept missing o = refl
  for_user-Same url kept (broken e) o = refl
  for_user-Same url kept (found u) none = refl
  for_user-Same url kept (found u) (some g) = refl

  for_session-Same :
      (url : Url) (r : Sessions.Store × Option Session) → Same (for_session cfg env draws s url p r)
  unfolding for_session login_page
  for_session-Same url (ss, none) = refl
  for_session-Same url (ss, some x) = for_user-Same url (some ss) _ _

  by_session-Same :
      (url : Url) (o : Option Sessions.Store) (c : Option String)
      → Same (by_session cfg env draws s url p o c)
  unfolding by_session login_page
  by_session-Same url none c = refl
  by_session-Same url (some ss) none = refl
  by_session-Same url (some ss) (some c) = ground (
    arith,
    for_session-Same url (get_session (draws.clock 4) (draws.clock 5) (draws.clock 6) c ss),
  )

  code_flow-Same : (url : Url) (c : Option String) → Same (code_flow cfg env draws s url p c)
  unfolding code_flow
  code_flow-Same url c =
      ground (arith, by_password-Same url s.grant_store, by_session-Same url s.session_store c)

  flow-Same : (c : Option String) (o : Option Url) → Same (flow cfg env draws s p c o)
  unfolding flow
  flow-Same c none = refl
  flow-Same c (some url) = ground (arith, code_flow-Same url c)

authorize-Same :
    (cfg : Config) (env : Env) (draws : Draws) (s : State) (p : Parameters) (c : Option String)
    → (authorize cfg env draws s p c).0.db ≡ s.db
unfolding authorize
authorize-Same cfg env draws s p c =
    ground (arith, flow-Same cfg env draws s (with_defaults p) c (env.parse_url p.redirect_uri))

pub handle_authorize-db :
    (cfg : Config) (env : Env) (draws : Draws) (s : State) (r : Request)
    → (handle_authorize cfg env draws s r).0.db ≡ s.db
unfolding handle_authorize
handle_authorize-db cfg env draws s r =
    authorize-Same cfg env draws s (authorize_parameters r) r.cookie
