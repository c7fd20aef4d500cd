-- ===== src/Sessions/Invariant.antt =====
-- Histories of calls of the session store: who a session belongs to.
use fake_auth.Base.{
  ℕ, ◌+◌, String, ◌≡◌, ◌≢◌, ◌⊎◌, inl, inr, Option, none, some, List, [], ◌∷◌, arith, ◌==◌, eq_iff,
  Bool-cases, All, ne_of_eq,
}
use Prim.Native.String
use fake_auth.Dict.{get, get-put, get-remove}
use fake_auth.Dict.Range.{get-sweep, alive}
use fake_auth.Sessions.{Session, Store, session_expired, clean_expired, create, get_session, revoke}
use fake_auth.Sessions.Expiry.{get_session_lem, get_session_ne, extended, fresh}

-- One call of the store, with what the environment gives it.
pub data Call : Type 0 where
  creates : Option String → ℕ → ℕ → String → String → Call
  gets : ℕ → ℕ → ℕ → String → Call
  revokes : String → Call

unfoldable pub step : Store → Call → Store
step s (creates random stamp now user_id email) = (create random stamp now user_id email s).0
step s (gets swept checked renewed sid) = (get_session swept checked renewed sid s).0
step s (revokes sid) = revoke sid s

unfoldable pub run : Store → List Call → Store
run s [] = s
run s (c ∷ cs) = run (step s c) cs

-- The session under the id, if there is one, is the user's, and carries the id.
abbrev pub Owned : String → String → Option Session → Type 0
Owned sid user_id none = Unit
Owned sid user_id (some x) = (x.session_id ≡ sid) × (x.user_id ≡ user_id)

-- The call does not issue the id to somebody else.
abbrev pub Respects : String → String → Call → Type 0
Respects sid user_id (creates none _ _ u _) = Unit
Respects sid user_id (creates (some hex) _ _ u _) = (String.◌++◌ "sid_" hex ≢ sid) ⊎ (u ≡ user_id)
Respects sid user_id (gets _ _ _ _) = Unit
Respects sid user_id (revokes _) = Unit

module _ (sid user_id : String) where
  alive-Owned :
      (now : ℕ) (o : Option Session)
      → Owned sid user_id o
      → Owned sid user_id (alive (session_expired now) o)
  alive-Owned now none h = tt
  alive-Owned now (some x) h = ground arith

  fresh-Owned :
      (swept checked t : ℕ) (o : Option Session)
      → Owned sid user_id o
      → Owned sid user_id (extended t (fresh swept checked o))
  fresh-Owned swept checked t none h = tt
  fresh-Owned swept checked t (some x) h = ground arith

  step-Owned :
      (s : Store) (c : Call)
      → Respects sid user_id c
      → Owned sid user_id (get s.sessions sid)
      → Owned sid user_id (get (step s c).sessions sid)
  unfolding step create revoke clean_expired
  step-Owned s (creates none stamp now u email) r h = h
  step-Owned s (creates (some hex) stamp now u email) r h =
      rw (get-put (clean_expired now s).sessions (String.◌++◌ "sid_" hex) sid _)
        (elim (Bool-cases (String.◌++◌ "sid_" hex == sid)) [
          | inl hit ↦ rw hit (ground (arith, eq_iff (String.◌++◌ "sid_" hex) sid))
          | inr miss ↦
              rw (miss, get-sweep (session_expired now) s.sessions sid)
                (alive-Owned now (get s.sessions sid) h)
        ])
  step-Owned s (gets swept checked renewed other) r h = elim (Bool-cases (other == sid)) [
    | inl hit ↦
        let e = (eq_iff other sid).0 hit in
        rw e (
          rw (get_session_lem swept checked renewed sid s).1
            (fresh-Owned swept checked (renewed + s.ttl) (get s.sessions sid) h))
    | inr miss ↦
        rw (get_session_ne swept checked renewed other s sid (ne_of_eq other sid miss))
          (alive-Owned swept (get s.sessions sid) h)
  ]
  step-Owned s (revokes other) r h =
      rw (get-remove s.sessions other sid)
        (elim (Bool-cases (other == sid)) [ inl hit ↦ rw hit tt | inr miss ↦ rw miss h ])

-- Where a session, if there is one under an id, belongs to a user and carries that id, the same
-- holds after every history of calls, unless the history issues the id to another user.
pub run-Owned :
    (sid user_id : String) (s : Store) (cs : List Call)
    → All (Respects sid user_id) cs
    → Owned sid user_id (get s.sessions sid)
    → Owned sid user_id (get (run s cs).sessions sid)
unfolding run
run-Owned sid user_id s [] r h = h
run-Owned sid user_id s (c ∷ cs) (r, rs) h =
    run-Owned sid user_id (step s c) cs rs (step-Owned sid user_id s c r h)
