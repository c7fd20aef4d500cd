-- ===== src/Handlers/SignIn/Proof.antt =====
-- What it takes to sign in, and what a sign-in saves.
use Prim.Native.String
use fake_auth.Base.{
  ℕ, ◌+◌, ◌≤◌, String, ◌≡◌, refl, sym, ap, ◌∙◌, true, Option, none, some, Bool-cases, inl, inr,
  arith, after, ltb, or_else, ◌==◌, if◌then◌else◌,
}
use fake_auth.Database
use fake_auth.Database.{
  Db, Fetched, found, missing, broken, get_by_email, get_by_id, verify_password,
}
use fake_auth.Grants
use fake_auth.Grants.{AuthCode, code_expired, save_code, clean_expired_codes}
use fake_auth.Dict.{get, get-put}
use fake_auth.Dict.Range.{alive, get-sweep}
use fake_auth.Sessions
use fake_auth.Sessions.{Session, get_session}
use fake_auth.Sessions.Expiry.{fresh, extended, get_session_lem}
use fake_auth.Handlers.{Env, Draws, State, engine_of}
use fake_auth.Handlers.SignIn.{Parameters, verified, password_holder, offer, code_for, new_code}

-- The database has the user under the name that was given, and the password is the one behind the
-- user's hash.
pub record KnowsPassword (env : Env) (draws : Draws) (db : Db) (username password : String)
    (u : Database.User) : Type 0 where
  pub known : get_by_email (engine_of env draws 0) env.codec db username ≡ found u
  pub right : env.bcrypt.compare_hash u.password_hash password ≡ true

-- The cookie names a session that the store holds, unexpired at both readings of the clock, and the
-- user is the session's.
pub record HasSession (env : Env) (draws : Draws) (s : State) (cookie : Option String)
    (u : Database.User) : Type 0 where
  pub sid : String
  pub sessions : Sessions.Store
  pub session : Session
  pub presented : cookie ≡ some sid
  pub configured : s.session_store ≡ some sessions
  pub held : get sessions.sessions sid ≡ some session
  pub unswept : draws.clock 4 ≤ session.expires_at
  pub unexpired : draws.clock 5 ≤ session.expires_at
  pub user : get_by_id (engine_of env draws 0) env.codec s.db session.user_id ≡ found u

fresh-held :
    (swept checked : ℕ) (o : Option Session) (renewed : ℕ) (x : Session)
    → extended renewed (fresh swept checked o) ≡ some x
    → (held : Session) × (o ≡ some held)
      × (swept ≤ held.expires_at)
      × (checked ≤ held.expires_at)
      × (held.user_id ≡ x.user_id)
fresh-held swept checked none renewed x h = absurd (cc h)
fresh-held swept checked (some held) renewed x h = elim (Bool-cases (after swept held.expires_at)) [
  | inl gone ↦ absurd (cc (rw gone at h))
  | inr kept ↦ elim (Bool-cases (after checked held.expires_at)) [
    | inl late ↦ absurd (cc (rw late at rw kept at h))
    | inr early ↦
        let e : some (record held { expires_at = renewed }) ≡ some x = rw early at rw kept at h in
        (
          held,
          refl,
          ground arith,
          ground arith,
          ap (λ (o : Option Session). (or_else o held).user_id) e,
        )
  ]
]

-- A session that a lookup yields is held, and not expired.
pub session_held :
    (swept checked renewed : ℕ) (sid : String) (ss : Sessions.Store) (x : Session)
    → (get_session swept checked renewed sid ss).1 ≡ some x
    → (held : Session) × (get ss.sessions sid ≡ some held)
      × (swept ≤ held.expires_at)
      × (checked ≤ held.expires_at)
      × (held.user_id ≡ x.user_id)
session_held swept checked renewed sid ss x h =
    fresh-held swept checked (get ss.sessions sid) (renewed + ss.ttl) x
      (sym (get_session_lem swept checked renewed sid ss).0 ∙ h)

-- What is left of a code at an instant.
abbrev pub unexpired_code : ℕ → Option AuthCode → Option AuthCode
unexpired_code now none = none
unexpired_code now (some ac) = if ltb ac.expires_at now then none else some ac

-- One code was saved, under a new name, with the user, the values of the parameters, a new session
-- ID and the end of the code's term; every other code is as it was, or gone if it has expired; the
-- other grants and the terms are as they were.
pub record Offers (draws : Draws) (p : Parameters) (u : Database.User) (s after : State)
    : Type 0 where
  pub store : Grants.Store
  pub kept : Grants.Store
  pub configured : s.grant_store ≡ some store
  pub saved : after.grant_store ≡ some kept
  pub codes :
      (k : String)
      → get kept.codes k ≡ (
          if String.◌++◌ "ac_" (draws.uuid 0) == k
          then some (record {
            user_id = u.id;
            client_id = p.client_id;
            redirect_uri = p.redirect_uri;
            scope = p.scope;
            audience = p.audience;
            nonce = p.nonce;
            session_id = String.◌++◌ "sid_" (draws.uuid 1);
            code_challenge = p.code_challenge;
            code_challenge_method = p.code_challenge_method;
            expires_at = draws.clock 2 + store.code_ttl;
          })
          else unexpired_code (draws.clock 3) (get store.codes k))
  pub refresh : kept.refresh ≡ store.refresh
  pub devices : (kept.devices ≡ store.devices) × (kept.user_codes ≡ store.user_codes)
  pub terms :
      (kept.code_ttl ≡ store.code_ttl)
      × (kept.refresh_ttl ≡ store.refresh_ttl)
      × (kept.device_ttl ≡ store.device_ttl)

alive-unexpired_code :
    (now : ℕ) (o : Option AuthCode) → alive (code_expired now) o ≡ unexpired_code now o
alive-unexpired_code now none = refl
alive-unexpired_code now (some ac) = refl

pub offered :
    (draws : Draws) (p : Parameters) (u : Database.User) (s after : State) (g : Grants.Store)
    → s.grant_store ≡ some g
    → after.grant_store ≡ some (offer draws p u g)
    → Offers draws p u s after
unfolding offer save_code code_for clean_expired_codes
offered draws p u s after g set e = record {
  store = g;
  kept = offer draws p u g;
  configured = set;
  saved = e;
  codes = λ k.
      get-put _ (new_code draws) k _
      ∙ rw
          (
            get-sweep (code_expired (draws.clock 3)) g.codes k,
            alive-unexpired_code (draws.clock 3) (get g.codes k),
          )
          refl;
  refresh = refl;
  devices = (refl, refl);
  terms = (refl, refl, refl);
}

verified_sound :
    (env : Env) (password : String) (f : Fetched Database.User) (u : Database.User)
    → verified env password f ≡ some u
    → (f ≡ found u) × (env.bcrypt.compare_hash u.password_hash password ≡ true)
unfolding verified verify_password
verified_sound env password missing u h = absurd (cc h)
verified_sound env password (broken e) u h = absurd (cc h)
verified_sound env password (found v) u h =
    elim (Bool-cases (env.bcrypt.compare_hash v.password_hash password)) [
      | inl right ↦ let e : v ≡ u = cc (rw right at h) in (ap found e, rw (sym e) right)
      | inr wrong ↦ absurd (cc (rw wrong at h))
    ]

pub password_holder_sound :
    (env : Env) (draws : Draws) (db : Db) (username password : String) (u : Database.User)
    → password_holder env draws db username password ≡ some u
    → KnowsPassword env draws db username password u
unfolding password_holder
password_holder_sound env draws db username password u h =
    let (known, right) = verified_sound env password _ u h in
    record { known = known; right = right }

pub password_holder_complete :
    (env : Env) (draws : Draws) (db : Db) (username password : String) (u : Database.User)
    → KnowsPassword env draws db username password u
    → password_holder env draws db username password ≡ some u
unfolding password_holder verified verify_password
password_holder_complete env draws db username password u h = rw (h.known, verified, h.right) refl
