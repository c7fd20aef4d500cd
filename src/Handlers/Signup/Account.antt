-- ===== src/Handlers/Signup/Account.antt =====
-- What signing up does to the accounts.
use fake_auth.Base.{String, ◌≡◌, refl, Option, none, some, ◌==◌, Bool-cases, inl, inr}
use fake_auth.Text.{or_text}
use fake_auth.Web.{Request, SignupBody}
use fake_auth.Database
use fake_auth.Database.{Db, create_user}
use fake_auth.Database.Users.{IsConsistent, create_user-IsConsistent}
use fake_auth.Handlers.{Env, Draws, State, engine_of}
use fake_auth.Handlers.Signup.{new_account, signed_up, signup, handle_signup}

signed_up-db :
    (draws : Draws) (s : State) (u : Database.User) (r : Db × Option String)
    → (signed_up draws s u r).0.db ≡ r.0
unfolding signed_up
signed_up-db draws s u (db, none) = refl
signed_up-db draws s u (db, some e) = refl

module _ (env : Env) (draws : Draws) (s : State) (h : IsConsistent s.db) where
  signup-IsConsistent : (o : Option SignupBody) → IsConsistent (signup env draws s o).0.db
  unfolding signup
  signup-IsConsistent none = h
  signup-IsConsistent (some b) = elim (Bool-cases (b.email == "")) [
    | inl empty ↦ rw (empty, signup) h
    | inr given ↦
        rw (given, signup, signed_up-db draws s)
          (create_user-IsConsistent (engine_of env draws 0) env.bcrypt env.codec
            (new_account env draws b) (or_text b.password "password123") s.db h)
  ]

  pub handle_signup-IsConsistent : (r : Request) → IsConsistent (handle_signup env draws s r).0.db
  unfolding handle_signup
  handle_signup-IsConsistent r = signup-IsConsistent (env.library.decode_signup r.body)
