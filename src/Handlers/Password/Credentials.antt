-- ===== src/Handlers/Password/Credentials.antt =====
-- The password grant asks for the password.
use fake_auth.Base.{◌≡◌, refl, ◌≢◌, true, false, ◌||◌, Bool-cases, inl, inr, arith, ◌==◌, eq_iff}
use fake_auth.Database
use fake_auth.Database.{Fetched, found, missing, broken, get_by_email, verify_password}
use fake_auth.Handlers.{Env, Draws, Config, State, engine_of}
use fake_auth.Handlers.CodeExchange.Soundness.{issues_tokens}
use fake_auth.Handlers.Password.{Login, wrong_password, password_tokens, handle_password_grant}

module _ (cfg : Config) (env : Env) (draws : Draws) (s : State) (l : Login) where
  password_tokens_verified :
      (f : Fetched Database.User)
      → issues_tokens (password_tokens cfg env draws s l f).1 ≡ true
      → (u : Database.User) × (f ≡ found u)
        × (verify_password env.bcrypt u.password_hash l.password ≡ true)
  unfolding password_tokens
  password_tokens_verified missing h = absurd (cc h)
  password_tokens_verified (broken e) h = absurd (cc h)
  password_tokens_verified (found u) h =
      elim (Bool-cases (verify_password env.bcrypt u.password_hash l.password)) [
        | inl right ↦ (u, refl, right)
        | inr wrong ↦ absurd (cc (rw wrong at h))
      ]

-- The password grant answers with tokens only if both parameters are given, the database has a user
-- with that e-mail address, and the password is the one behind the user's hash.
pub password_tokens_only_if_verified :
    (cfg : Config) (env : Env) (draws : Draws) (s : State) (l : Login)
    → issues_tokens (handle_password_grant cfg env draws s l).1 ≡ true
    → (l.username ≢ "")
      × (l.password ≢ "")
      × (u : Database.User) × (get_by_email (engine_of env draws 0) env.codec s.db l.username
          ≡ found u)
      × (verify_password env.bcrypt u.password_hash l.password ≡ true)
unfolding handle_password_grant
password_tokens_only_if_verified cfg env draws s l h =
    elim (Bool-cases (l.username == "" || l.password == "")) [
      | inl empty ↦ absurd (cc (rw (empty, handle_password_grant) at h))
      | inr given ↦
          let (u, e, right) =
            password_tokens_verified cfg env draws s l
              (get_by_email (engine_of env draws 0) env.codec s.db l.username)
              (rw (given, handle_password_grant) at h) in
          (ground (arith, eq_iff l.username ""), ground (arith, eq_iff l.password ""), u, e, right)
    ]

password_tokens_wrong :
    (cfg : Config) (env : Env) (draws : Draws) (s : State) (l : Login) (f : Fetched Database.User)
    → ((u : Database.User)
        → f ≡ found u
        → verify_password env.bcrypt u.password_hash l.password ≡ false)
    → password_tokens cfg env draws s l f ≡ (s, wrong_password)
unfolding password_tokens
password_tokens_wrong cfg env draws s l missing wrong = refl
password_tokens_wrong cfg env draws s l (broken e) wrong = refl
password_tokens_wrong cfg env draws s l (found u) wrong = rw (wrong u refl) refl

-- Unless the database yields a user with that e-mail address whose hash the password matches, the
-- password grant gives one and the same answer, so that it does not tell a user that is missing
-- from a password that is wrong, and the state stays as it was.
pub refused_password_is_uniform :
    (cfg : Config) (env : Env) (draws : Draws) (s : State) (l : Login)
    → ((u : Database.User)
        → get_by_email (engine_of env draws 0) env.codec s.db l.username ≡ found u
        → verify_password env.bcrypt u.password_hash l.password ≡ false)
    → handle_password_grant cfg env draws s l ≡ (s, wrong_password)
unfolding handle_password_grant
refused_password_is_uniform cfg env draws s l wrong =
    elim (Bool-cases (l.username == "" || l.password == "")) [
      | inl empty ↦ rw (empty, handle_password_grant) refl
      | inr given ↦
          rw (given, handle_password_grant) (password_tokens_wrong cfg env draws s l _ wrong)
    ]
