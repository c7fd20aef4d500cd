-- ===== src/Handlers/Login/Reads.antt =====
-- The login page only reads the database.
use fake_auth.Base.{◌≡◌, refl, Option, none, some, arith, ◌==◌, Bool-cases, Option-cases, inl, inr}
use fake_auth.Web.{Request}
use fake_auth.Database
use fake_auth.Handlers.{Url, Env, Draws, Config, State, Answer}
use fake_auth.Handlers.SignIn.{Parameters, password_holder}
use fake_auth.Handlers.Login.{
  deliver, signed_in, post_login, handle_login, handle_universal_login, login_parameters,
}

module _ (cfg : Config) (env : Env) (draws : Draws) (s : State) where
  deliver-db :
      (url : Url) (p : Parameters) (u : Database.User)
      → (deliver cfg env draws s url p u).0.db ≡ s.db
  unfolding deliver
  deliver-db url p u = ground arith

-- The result has the database of the request's state.
abbrev Same : State → State × Option Answer → Type 0
Same s r = r.0.db ≡ s.db

signed_in-Same :
    (cfg : Config) (env : Env) (draws : Draws) (s : State) (p : Parameters)
    (o : Option Database.User)
    → Same s (signed_in cfg env draws s p o)
unfolding signed_in
signed_in-Same cfg env draws s p none = refl
signed_in-Same cfg env draws s p (some u) = elim (Option-cases (env.parse_url p.redirect_uri)) [
  | inl bad ↦ rw (bad, signed_in) refl
  | inr (url, parsed) ↦ rw (parsed, signed_in) (deliver-db cfg env draws _ url p u)
]

post_login-Same :
    (cfg : Config) (env : Env) (draws : Draws) (s : State) (p : Parameters)
    → Same s (post_login cfg env draws s p)
unfolding post_login
post_login-Same cfg env draws s p =
    ground (
      arith,
      signed_in-Same cfg env draws s p (password_holder env draws s.db p.username p.password),
    )

pub handle_login-db :
    (cfg : Config) (env : Env) (draws : Draws) (s : State) (r : Request)
    → (handle_login cfg env draws s r).0.db ≡ s.db
unfolding handle_login
handle_login-db cfg env draws s r = elim (Bool-cases ((login_parameters r).redirect_uri == "")) [
  | inl empty ↦ rw (empty, handle_login) refl
  | inr given ↦ elim (Bool-cases (r.method == "POST")) [
    | inl posted ↦
        rw (given, posted, handle_login) (post_login-Same cfg env draws s (login_parameters r))
    | inr shown ↦ rw (given, shown, handle_login) refl
  ]
]

pub handle_universal_login-db :
    (cfg : Config) (env : Env) (draws : Draws) (s : State) (r : Request)
    → (handle_universal_login cfg env draws s r).0.db ≡ s.db
unfolding handle_universal_login
handle_universal_login-db cfg env draws s r = handle_login-db cfg env draws s r
