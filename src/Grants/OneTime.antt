-- ===== src/Grants/OneTime.antt =====
-- Authorization codes and refresh tokens: what is saved is handed out once, within its term.
use fake_auth.Base.{
  ℕ, ◌+◌, String, ◌≡◌, refl, ap, ◌∙◌, ◌≢◌, Option, none, some, arith, eq_iff, after, if◌then◌else◌,
  Option-cases, inl, inr,
}
use fake_auth.Dict.{get, get-put, get-remove, get-put_self, get-remove_self}
use fake_auth.Dict.Range.{get-sweep, alive}
use fake_auth.Grants.{
  AuthCode, RefreshGrant, Store, code_expired, refresh_expired, clean_expired_codes, save_code,
  take_code, consume_code, clean_expired_refresh, save_refresh_token, take_refresh,
  consume_refresh_token, revoke_refresh_token,
}

module _ (now : ℕ) (code : String) (s : Store) where
  take_code_lem :
      (o : Option AuthCode)
      → get s.codes code ≡ o
      → ((take_code now code s o).1 ≡ alive (code_expired now) o)
        × (get (take_code now code s o).0.codes code ≡ none)
  unfolding take_code
  take_code_lem none e = (refl, e)
  take_code_lem (some ac) e = (ground arith, ground (arith, get-remove_self s.codes code))

  -- Consuming a code returns its grant, unless that has expired, and in every case the code is
  -- gone.
  pub consume_code_lem :
      ((consume_code now code s).1 ≡ alive (code_expired now) (get s.codes code))
      × (get (consume_code now code s).0.codes code ≡ none)
  unfolding consume_code
  consume_code_lem = take_code_lem (get s.codes code) refl

  pub consume_code_ne :
      (other : String)
      → code ≢ other
      → get (consume_code now code s).0.codes other ≡ get s.codes other
  unfolding consume_code take_code
  consume_code_ne other apart = elim (Option-cases (get s.codes code)) [
    | inl missing ↦ rw (missing, take_code) refl
    | inr (ac, found) ↦
        rw (found, take_code) (ground (arith, eq_iff code other, get-remove s.codes code other))
  ]

  take_refresh_lem :
      (o : Option RefreshGrant)
      → get s.refresh code ≡ o
      → ((take_refresh now code s o).1 ≡ alive (refresh_expired now) o)
        × (get (take_refresh now code s o).0.refresh code ≡ none)
  unfolding take_refresh
  take_refresh_lem none e = (refl, e)
  take_refresh_lem (some rg) e = (ground arith, ground (arith, get-remove_self s.refresh code))

  pub consume_refresh_token_lem :
      ((consume_refresh_token now code s).1 ≡ alive (refresh_expired now) (get s.refresh code))
      × (get (consume_refresh_token now code s).0.refresh code ≡ none)
  unfolding consume_refresh_token
  consume_refresh_token_lem = take_refresh_lem (get s.refresh code) refl

module _ (now : ℕ) (token : String) (s : Store) where
  pub consume_refresh_token_ne :
      (other : String)
      → token ≢ other
      → get (consume_refresh_token now token s).0.refresh other ≡ get s.refresh other
  unfolding consume_refresh_token take_refresh
  consume_refresh_token_ne other apart = elim (Option-cases (get s.refresh token)) [
    | inl missing ↦ rw (missing, take_refresh) refl
    | inr (rg, found) ↦
        rw (found, take_refresh)
          (ground (arith, eq_iff token other, get-remove s.refresh token other))
  ]

pub revoke_refresh_token_ne :
    (token other : String) (s : Store)
    → token ≢ other
    → get (revoke_refresh_token token s).0.refresh other ≡ get s.refresh other
unfolding revoke_refresh_token
revoke_refresh_token_ne token other s apart =
    ground (arith, eq_iff token other, get-remove s.refresh token other)

-- A revoked token is gone.
pub revoke_refresh_token_lem :
    (token : String) (s : Store) → get (revoke_refresh_token token s).0.refresh token ≡ none
unfolding revoke_refresh_token
revoke_refresh_token_lem token s = elim (Option-cases (get s.refresh token)) [
  | inl missing ↦ rw (missing, revoke_refresh_token) missing
  | inr (rg, found) ↦ rw (found, revoke_refresh_token) (get-remove_self s.refresh token)
]

-- A saved code is exchanged for exactly the grant that was saved, at every instant up to the end of
-- its term, and for nothing later.
pub consume_code-save_code :
    (stamp swept now : ℕ) (code : String) (ac : AuthCode) (s : Store)
    → (consume_code now code (save_code stamp swept code ac s)).1 ≡ (
        if after now (stamp + s.code_ttl)
        then none
        else some (record ac { expires_at = stamp + s.code_ttl }))
unfolding save_code
consume_code-save_code stamp swept now code ac s =
    (consume_code_lem now code _).0 ∙ ap (alive (code_expired now)) (get-put_self _ code _)

-- So is a saved refresh token.
pub consume_refresh_token-save :
    (stamp swept now : ℕ) (token : String) (rg : RefreshGrant) (s : Store)
    → (consume_refresh_token now token (save_refresh_token stamp swept token rg s)).1 ≡ (
        if after now (stamp + s.refresh_ttl)
        then none
        else some (record rg { expires_at = stamp + s.refresh_ttl }))
unfolding save_refresh_token
consume_refresh_token-save stamp swept now token rg s =
    (consume_refresh_token_lem now token _).0
    ∙ ap (alive (refresh_expired now)) (get-put_self _ token _)

-- Saving a code keeps every other code that has not expired, and drops those that have.
pub save_code_ne :
    (stamp swept : ℕ) (code other : String) (ac : AuthCode) (s : Store)
    → code ≢ other
    → get (save_code stamp swept code ac s).codes other
      ≡ alive (code_expired swept) (get s.codes other)
unfolding save_code clean_expired_codes
save_code_ne stamp swept code other ac s apart = ground (
  arith,
  eq_iff code other,
  get-put (clean_expired_codes swept s).codes code other
      (record ac { expires_at = stamp + s.code_ttl }),
  get-sweep (code_expired swept) s.codes other,
)

pub save_refresh_token_ne :
    (stamp swept : ℕ) (token other : String) (rg : RefreshGrant) (s : Store)
    → token ≢ other
    → get (save_refresh_token stamp swept token rg s).refresh other
      ≡ alive (refresh_expired swept) (get s.refresh other)
unfolding save_refresh_token clean_expired_refresh
save_refresh_token_ne stamp swept token other rg s apart = ground (
  arith,
  eq_iff token other,
  get-put (clean_expired_refresh swept s).refresh token other
      (record rg { expires_at = stamp + s.refresh_ttl }),
  get-sweep (refresh_expired swept) s.refresh other,
)
