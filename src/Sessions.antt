-- ===== src/Sessions.antt =====
-- internal/sessions/sessions.go: server-side sessions with a sliding expiry. Each method holds the
-- store's mutex from its first read to its return, so it is one step. Each reading of the clock is
-- an argument.
pub mod Expiry
pub mod Invariant
use fake_auth.Base.{
  ℕ, ◌+◌, ℤ, String, Bool, Option, none, some, ◌*◌, [], after, positive_or, if◌then◌else◌,
}
use fake_auth.Dict.{Dict, get, put, remove}
use fake_auth.Dict.Range.{sweep}
use Prim.Native.String

pub record Session : Type 0 where
  pub session_id : String
  pub user_id : String
  pub email : String
  pub expires_at : ℕ

pub record Store : Type 0 where
  pub sessions : Dict Session
  pub ttl : ℕ

-- time.Hour, in nanoseconds
abbrev pub hour : ℕ
hour = 3600 * 1000000000

unfoldable pub new_store : ℤ → Store
new_store ttl = record { sessions = []; ttl = positive_or ttl (24 * hour) }

abbrev pub session_expired : ℕ → Session → Bool
session_expired now s = after now s.expires_at

unfoldable pub clean_expired : ℕ → Store → Store
clean_expired now s = record s { sessions = sweep (session_expired now) s.sessions }

-- `random` is the hexadecimal text of the 16 bytes of crypto/rand, `none` where that fails. The
-- result is the session's id, or `none` for the error.
unfoldable pub create : Option String → ℕ → ℕ → String → String → Store → Store × Option String
unfolding clean_expired
create none stamp now user_id email s = (s, none)
create (some hex) stamp now user_id email s =
    let sid = String.◌++◌ "sid_" hex in
    let session : Session = record {
      session_id = sid;
      user_id = user_id;
      email = email;
      expires_at = stamp + s.ttl;
    } in
    let cleaned = clean_expired now s in
    (record cleaned { sessions = put cleaned.sessions sid session }, some sid)

-- The three readings: of the clean-up, of the test, and of the extension.
renew : ℕ → ℕ → String → Store → Option Session → Store × Option Session
renew checked renewed sid s none = (s, none)
renew checked renewed sid s (some x) =
    if after checked x.expires_at
    then (record s { sessions = remove s.sessions sid }, none)
    else (let y = record x { expires_at = renewed + s.ttl } in
        (record s { sessions = put s.sessions sid y }, some y))

unfoldable pub get_session : ℕ → ℕ → ℕ → String → Store → Store × Option Session
unfolding clean_expired renew
get_session swept checked renewed sid s =
    let cleaned = clean_expired swept s in
    renew checked renewed sid cleaned (get cleaned.sessions sid)

unfoldable pub revoke : String → Store → Store
revoke sid s = record s { sessions = remove s.sessions sid }
