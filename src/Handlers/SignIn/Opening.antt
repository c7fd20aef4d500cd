-- ===== src/Handlers/SignIn/Opening.antt =====
-- What a sign-in leaves in the session store: the calls of SessionStore.Create in
-- internal/handlers/handlers.go.
use Prim.Native.String
use fake_auth.Base.{
  ℕ, ◌+◌, String, ◌≡◌, refl, ◌∙◌, ◌⊎◌, inl, inr, ◌==◌, ltb, if◌then◌else◌, Option, none, some,
  Option-cases,
}
use fake_auth.Dict.{get, get-put}
use fake_auth.Dict.Range.{alive, get-sweep}
use fake_auth.Database
use fake_auth.Sessions
use fake_auth.Sessions.{Session, session_expired}
use fake_auth.Handlers.{Draws}
use fake_auth.Handlers.SignIn.{open_session}

-- What is left of a session at an instant.
abbrev pub unexpired_session : ℕ → Option Session → Option Session
unexpired_session now none = none
unexpired_session now (some x) = if ltb x.expires_at now then none else some x

-- One session was opened, under a new name, for the user and a full term; every other is as it was,
-- or gone if it has expired.
pub record Opens (draws : Draws) (u : Database.User) (before after : Option Sessions.Store)
    : Type 0 where
  pub hex : String
  pub store : Sessions.Store
  pub kept : Sessions.Store
  pub drawn : draws.session_hex ≡ some hex
  pub configured : before ≡ some store
  pub saved : after ≡ some kept
  pub sessions :
      (k : String)
      → get kept.sessions k ≡ (
          if String.◌++◌ "sid_" hex == k
          then some (record {
            session_id = String.◌++◌ "sid_" hex;
            user_id = u.id;
            email = u.email;
            expires_at = draws.clock 0 + store.ttl;
          })
          else unexpired_session (draws.clock 1) (get store.sessions k))
  pub term : kept.ttl ≡ store.ttl

-- Without a session store or without random bytes the sessions stay as they are.
abbrev pub MayOpen : Draws → Database.User → Option Sessions.Store → Option Sessions.Store → Type 0
MayOpen draws u before after =
    ((after ≡ before) × ((before ≡ none) ⊎ (draws.session_hex ≡ none))) ⊎ Opens draws u before after

alive-unexpired_session :
    (now : ℕ) (o : Option Session) → alive (session_expired now) o ≡ unexpired_session now o
alive-unexpired_session now none = refl
alive-unexpired_session now (some x) = refl

created-MayOpen :
    (draws : Draws) (u : Database.User) (ss : Sessions.Store) (h : Option String)
    → draws.session_hex ≡ h
    → MayOpen draws u
        (some ss)
        (some (Sessions.create h (draws.clock 0) (draws.clock 1) u.id u.email ss).0)
unfolding Sessions.create Sessions.clean_expired
created-MayOpen draws u ss none e = inl (refl, inr e)
created-MayOpen draws u ss (some hex) e = inr (record {
  hex = hex;
  store = ss;
  kept = (Sessions.create (some hex) (draws.clock 0) (draws.clock 1) u.id u.email ss).0;
  drawn = e;
  configured = refl;
  saved = refl;
  sessions = λ k.
      get-put _ (String.◌++◌ "sid_" hex) k _
      ∙ rw
          (
            get-sweep (session_expired (draws.clock 1)) ss.sessions k,
            alive-unexpired_session (draws.clock 1) (get ss.sessions k),
          )
          refl;
  term = refl;
})

opened_store :
    (draws : Draws) (u : Database.User) (ss : Sessions.Store)
    → (open_session draws u (some ss)).0
      ≡ some (Sessions.create draws.session_hex (draws.clock 0) (draws.clock 1) u.id u.email ss).0
unfolding open_session
opened_store draws u ss =
    elim (Option-cases
      (Sessions.create draws.session_hex (draws.clock 0) (draws.clock 1) u.id u.email ss).1) [
        | inl none_yet ↦ rw (none_yet, open_session) refl
        | inr (sid, made) ↦ rw (made, open_session) refl
      ]

pub open_session-MayOpen :
    (draws : Draws) (u : Database.User) (o : Option Sessions.Store)
    → MayOpen draws u o (open_session draws u o).0
unfolding open_session
open_session-MayOpen draws u none = inl (refl, inl refl)
open_session-MayOpen draws u (some ss) =
    rw (opened_store draws u ss) (created-MayOpen draws u ss draws.session_hex refl)
