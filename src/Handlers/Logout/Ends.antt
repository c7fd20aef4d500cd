-- ===== src/Handlers/Logout/Ends.antt =====
-- What handleLogout of internal/handlers/handlers.go leaves of the session.
use fake_auth.Base.{ℕ, String, ◌≡◌, refl, ◌≢◌, none, some, eq_of_ne}
use fake_auth.Web.{Request}
use fake_auth.Sessions
use fake_auth.Sessions.{get_session, revoke}
use fake_auth.Sessions.Expiry.{get_session-revoke}
use fake_auth.Handlers.{Env, State, cleared}
use fake_auth.Handlers.Logout.{close_session, handle_logout}

-- The state has a session store in which no lookup finds the session, at any instant.
pub record Ended (sid : String) (s : State) : Type 0 where
  pub store : Sessions.Store
  pub configured : s.session_store ≡ some store
  pub gone : (swept checked renewed : ℕ) → (get_session swept checked renewed sid store).1 ≡ none

-- With a session store configured, a logout that presents the cookie of a session ends that
-- session, clears the cookie, and leaves the grants and the database alone.
pub logout_ends_session :
    (env : Env) (s : State) (r : Request) (ss : Sessions.Store) (sid : String)
    → s.session_store ≡ some ss
    → r.cookie ≡ some sid
    → sid ≢ ""
    → let (after, a) = handle_logout env s r in
      Ended sid after
      × (a.cookie ≡ cleared)
      × (after.grant_store ≡ s.grant_store)
      × (after.db ≡ s.db)
unfolding handle_logout close_session
logout_ends_session env s r ss sid set presented named =
    rw (set, handle_logout, presented, close_session, eq_of_ne sid "" named)
      (
        record {
          store = revoke sid ss;
          configured = refl;
          gone = λ swept checked renewed. get_session-revoke sid swept checked renewed ss;
        },
        refl,
        refl,
        refl,
      )
