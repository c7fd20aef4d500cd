-- ===== src/Sessions/Expiry.antt =====
-- When a session is found, and what a lookup does to it.
use fake_auth.Base.{
  ap, ◌∙◌, ℕ, ◌+◌, ◌≤◌, String, ◌≡◌, refl, ◌≢◌, Option, none, some, arith, eq_iff, after,
  if◌then◌else◌,
}
use Prim.Native.String
use fake_auth.Dict.{get, get-put, get-remove, get-put_self, get-remove_self}
use fake_auth.Dict.Range.{get-sweep, alive}
use fake_auth.Sessions.{
  Session, Store, session_expired, clean_expired, create, renew, get_session, revoke,
}

-- A session that both readings find unexpired, or nothing.
abbrev pub fresh : ℕ → ℕ → Option Session → Option Session
fresh swept checked none = none
fresh swept checked (some x) =
    if after swept x.expires_at then none else if after checked x.expires_at then none else some x

-- The session with a new expiry.
abbrev pub extended : ℕ → Option Session → Option Session
extended t none = none
extended t (some x) = some (record x { expires_at = t })

-- What a test at one instant leaves of a session.
abbrev unexpired : ℕ → Option Session → Option Session
unexpired checked none = none
unexpired checked (some x) = if after checked x.expires_at then none else some x

module _ (checked renewed : ℕ) (sid : String) (s : Store) where
  renew-result :
      (o : Option Session)
      → (renew checked renewed sid s o).1 ≡ extended (renewed + s.ttl) (unexpired checked o)
  unfolding renew
  renew-result none = refl
  renew-result (some x) = ground arith

  get-renew_self :
      (o : Option Session)
      → get s.sessions sid ≡ o
      → get (renew checked renewed sid s o).0.sessions sid
        ≡ extended (renewed + s.ttl) (unexpired checked o)
  unfolding renew
  get-renew_self none e = e
  get-renew_self (some x) e = ground (
    arith,
    get-remove_self s.sessions sid,
    get-put_self s.sessions sid (record x { expires_at = renewed + s.ttl }),
  )

  get-renew_ne :
      (o : Option Session) (other : String)
      → sid ≢ other
      → get (renew checked renewed sid s o).0.sessions other ≡ get s.sessions other
  unfolding renew
  get-renew_ne none other apart = refl
  get-renew_ne (some x) other apart = ground (
    arith,
    eq_iff sid other,
    get-remove s.sessions sid other,
    get-put s.sessions sid other (record x { expires_at = renewed + s.ttl }),
  )

fresh-alive :
    (swept checked : ℕ) (o : Option Session)
    → unexpired checked (alive (session_expired swept) o) ≡ fresh swept checked o
fresh-alive swept checked none = refl
fresh-alive swept checked (some x) = ground arith

module _ (swept checked renewed : ℕ) (sid : String) (s : Store) where
  -- A lookup returns the stored session, unless it has expired, with its expiry moved to a full
  -- term after the lookup; and this is the session that the store then holds.
  pub get_session_lem :
      ((get_session swept checked renewed sid s).1
        ≡ extended (renewed + s.ttl) (fresh swept checked (get s.sessions sid)))
      × (get (get_session swept checked renewed sid s).0.sessions sid
          ≡ extended (renewed + s.ttl) (fresh swept checked (get s.sessions sid)))
  unfolding get_session
  get_session_lem =
      let kept = get-sweep (session_expired swept) s.sessions sid in
      let seen =
        ap (λ o. extended (renewed + s.ttl) (unexpired checked o)) kept
        ∙ ap (extended (renewed + s.ttl)) (fresh-alive swept checked (get s.sessions sid)) in
      let cleaned = clean_expired swept s in
      (
        renew-result checked renewed sid cleaned (get cleaned.sessions sid) ∙ seen,
        get-renew_self checked renewed sid cleaned (get cleaned.sessions sid) refl ∙ seen,
      )

  -- A lookup of one session leaves every other as the clean-up leaves it.
  pub get_session_ne :
      (other : String)
      → sid ≢ other
      → get (get_session swept checked renewed sid s).0.sessions other
        ≡ alive (session_expired swept) (get s.sessions other)
  unfolding get_session
  get_session_ne other apart =
      let cleaned = clean_expired swept s in
      get-renew_ne checked renewed sid cleaned (get cleaned.sessions sid) other apart
      ∙ get-sweep (session_expired swept) s.sessions other

get_session-found :
    (swept checked renewed : ℕ) (sid : String) (s : Store) (x : Session)
    → get s.sessions sid ≡ some x
    → swept ≤ x.expires_at
    → checked ≤ x.expires_at
    → (get_session swept checked renewed sid s).1 ≡ some (record x { expires_at = renewed + s.ttl })
get_session-found swept checked renewed sid s x e h k =
    ground (arith, (get_session_lem swept checked renewed sid s).0)

-- A session that was just created is found, with the user it was created for, by every lookup
-- within its term, and its expiry then moves to a full term after the lookup.
pub get_session-create :
    (hex user_id email : String) (stamp now swept checked renewed : ℕ) (s : Store)
    → swept ≤ stamp + s.ttl
    → checked ≤ stamp + s.ttl
    → let sid = String.◌++◌ "sid_" hex in
      let made = create (some hex) stamp now user_id email s in
      (made.1 ≡ some sid)
      × ((get_session swept checked renewed sid made.0).1
          ≡ some (record {
            session_id = sid;
            user_id = user_id;
            email = email;
            expires_at = renewed + s.ttl;
          }))
unfolding create
get_session-create hex user_id email stamp now swept checked renewed s h k =
    (refl, get_session-found swept checked renewed _ _ _ (get-put_self _ _ _) h k)

-- A session that was revoked is found by no lookup.
pub get_session-revoke :
    (sid : String) (swept checked renewed : ℕ) (s : Store)
    → (get_session swept checked renewed sid (revoke sid s)).1 ≡ none
unfolding revoke
get_session-revoke sid swept checked renewed s = ground (
  arith,
  (get_session_lem swept checked renewed sid (revoke sid s)).0,
  get-remove_self s.sessions sid,
)
