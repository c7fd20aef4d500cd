-- ===== src/Grants/History.antt =====
-- Histories of calls of the grant store: what was handed out or revoked never comes back.
use fake_auth.Base.{
  ℕ, Char, String, ◌≡◌, refl, ◌≢◌, none, List, [], ◌∷◌, arith, ◌==◌, eq_iff, All, Bool-cases, ap,
  ◌∙◌, inl, inr, ne_of_eq, if◌then◌else◌,
}
use fake_auth.Dict.{get, remove}
use fake_auth.Dict.Range.{alive}
use fake_auth.Grants.{
  AuthCode, RefreshGrant, DeviceCode, Store, code_expired, refresh_expired, save_code, consume_code,
  save_refresh_token, consume_refresh_token, revoke_refresh_token, save_device_code,
  get_device_code, authorize_device_code, deny_device_code, consume_device_code, clean_devices_from,
  clean_expired_devices, take_device, authorize_at, authorize_found, deny_at, deny_found,
  device_expired, normalize, take_refresh, take_code,
}
use fake_auth.Grants.OneTime.{
  consume_code_lem, consume_code_ne, save_code_ne, consume_refresh_token_lem,
  revoke_refresh_token_lem, save_refresh_token_ne, consume_refresh_token_ne,
  revoke_refresh_token_ne,
}

-- One call of the store, with what the clock and the caller give it.
pub data Call : Type 0 where
  saves_code : ℕ → ℕ → String → AuthCode → Call
  consumes_code : ℕ → String → Call
  saves_refresh : ℕ → ℕ → String → RefreshGrant → Call
  consumes_refresh : ℕ → String → Call
  revokes_refresh : String → Call
  saves_device : ℕ → ℕ → String → String → DeviceCode → Call
  gets_device : ℕ → ℕ → String → Call
  authorizes : ℕ → String → String → Call
  denies : String → Call
  consumes_device : ℕ → String → Call

module _ (upper : Char → Char) where
  unfoldable pub step : Store → Call → Store
  step s (saves_code stamp now code ac) = save_code stamp now code ac s
  step s (consumes_code now code) = (consume_code now code s).0
  step s (saves_refresh stamp now token rg) = save_refresh_token stamp now token rg s
  step s (consumes_refresh now token) = (consume_refresh_token now token s).0
  step s (revokes_refresh token) = (revoke_refresh_token token s).0
  step s (saves_device stamp now dc_code user_code dc) =
      save_device_code upper stamp now dc_code user_code dc s
  step s (gets_device swept checked dc_code) = (get_device_code upper swept checked dc_code s).0
  step s (authorizes now user_code user_id) =
      (authorize_device_code upper now user_code user_id s).0
  step s (denies user_code) = (deny_device_code upper user_code s).0
  step s (consumes_device now dc_code) = (consume_device_code upper now dc_code s).0

  unfoldable pub run : Store → List Call → Store
  run s [] = s
  run s (c ∷ cs) = run (step s c) cs

-- The calls on devices leave the codes and the refresh tokens alone.
abbrev Untouched : Store → Store → Type 0
Untouched s t = (t.codes ≡ s.codes) × (t.refresh ≡ s.refresh)

module _ (upper : Char → Char) where
  clean_devices_from-Untouched :
      (now : ℕ) (es : List (String × DeviceCode)) (s : Store)
      → Untouched s (clean_devices_from upper now es s)
  unfolding clean_devices_from
  clean_devices_from-Untouched now [] s = (refl, refl)
  clean_devices_from-Untouched now ((k, v) ∷ es) s =
      let t =
        if device_expired now v
        then record s {
          devices = remove s.devices k;
          user_codes = remove s.user_codes (normalize upper v.user_code);
        }
        else s in
      let (codes, refresh) = clean_devices_from-Untouched now es t in
      (codes ∙ ground arith, refresh ∙ ground arith)

  authorize-Untouched :
      (now : ℕ) (user_code user_id : String) (s : Store)
      → Untouched s (authorize_device_code upper now user_code user_id s).0
  unfolding authorize_device_code authorize_at authorize_found
  authorize-Untouched now user_code user_id s = ground arith

  deny-Untouched :
      (user_code : String) (s : Store) → Untouched s (deny_device_code upper user_code s).0
  unfolding deny_device_code deny_at deny_found
  deny-Untouched user_code s = ground arith

  consume-Untouched :
      (now : ℕ) (device_code : String) (s : Store)
      → Untouched s (consume_device_code upper now device_code s).0
  unfolding consume_device_code take_device
  consume-Untouched now device_code s = ground arith

-- The call does not save the code, or the refresh token.
abbrev pub AvoidsCode : String → Call → Type 0
AvoidsCode code (saves_code _ _ other _) = other ≢ code
AvoidsCode code _ = Unit

abbrev pub AvoidsRefresh : String → Call → Type 0
AvoidsRefresh token (saves_refresh _ _ other _) = other ≢ token
AvoidsRefresh token _ = Unit

module _ (upper : Char → Char) where
  step-codes :
      (code : String) (s : Store) (c : Call)
      → AvoidsCode code c
      → get s.codes code ≡ none
      → get (step upper s c).codes code ≡ none
  unfolding step save_refresh_token consume_refresh_token take_refresh revoke_refresh_token
      save_device_code get_device_code clean_expired_devices
  step-codes code s (saves_code stamp now other ac) avoids gone =
      ground (arith, save_code_ne stamp now other code ac s avoids)
  step-codes code s (consumes_code now other) avoids gone = elim (Bool-cases (other == code)) [
    | inl hit ↦ rw (← (eq_iff other code).0 hit) (consume_code_lem now other s).1
    | inr miss ↦ consume_code_ne now other s code (ne_of_eq other code miss) ∙ gone
  ]
  step-codes code s (saves_refresh stamp now token rg) avoids gone = gone
  step-codes code s (consumes_refresh now token) avoids gone = ground arith
  step-codes code s (revokes_refresh token) avoids gone = ground arith
  step-codes code s (saves_device stamp now d u dc) avoids gone =
      rw (clean_devices_from-Untouched upper now _ s).0 gone
  step-codes code s (gets_device swept checked d) avoids gone =
      rw (clean_devices_from-Untouched upper swept _ s).0 gone
  step-codes code s (authorizes now u id) avoids gone =
      rw (authorize-Untouched upper now u id s).0 gone
  step-codes code s (denies u) avoids gone = rw (deny-Untouched upper u s).0 gone
  step-codes code s (consumes_device now d) avoids gone =
      rw (consume-Untouched upper now d s).0 gone

  step-refresh :
      (token : String) (s : Store) (c : Call)
      → AvoidsRefresh token c
      → get s.refresh token ≡ none
      → get (step upper s c).refresh token ≡ none
  unfolding step save_code consume_code take_code save_device_code get_device_code
      clean_expired_devices
  step-refresh token s (saves_code stamp now code ac) avoids gone = gone
  step-refresh token s (consumes_code now code) avoids gone = ground arith
  step-refresh token s (saves_refresh stamp now other rg) avoids gone =
      ground (arith, save_refresh_token_ne stamp now other token rg s avoids)
  step-refresh token s (consumes_refresh now other) avoids gone =
      elim (Bool-cases (other == token)) [
        | inl hit ↦ rw (← (eq_iff other token).0 hit) (consume_refresh_token_lem now other s).1
        | inr miss ↦ consume_refresh_token_ne now other s token (ne_of_eq other token miss) ∙ gone
      ]
  step-refresh token s (revokes_refresh other) avoids gone = elim (Bool-cases (other == token)) [
    | inl hit ↦ rw (← (eq_iff other token).0 hit) (revoke_refresh_token_lem other s)
    | inr miss ↦ revoke_refresh_token_ne other token s (ne_of_eq other token miss) ∙ gone
  ]
  step-refresh token s (saves_device stamp now d u dc) avoids gone =
      rw (clean_devices_from-Untouched upper now _ s).1 gone
  step-refresh token s (gets_device swept checked d) avoids gone =
      rw (clean_devices_from-Untouched upper swept _ s).1 gone
  step-refresh token s (authorizes now u id) avoids gone =
      rw (authorize-Untouched upper now u id s).1 gone
  step-refresh token s (denies u) avoids gone = rw (deny-Untouched upper u s).1 gone
  step-refresh token s (consumes_device now d) avoids gone =
      rw (consume-Untouched upper now d s).1 gone

  run-codes :
      (code : String) (s : Store) (cs : List Call)
      → All (AvoidsCode code) cs
      → get s.codes code ≡ none
      → get (run upper s cs).codes code ≡ none
  unfolding run
  run-codes code s [] avoid gone = gone
  run-codes code s (c ∷ cs) (avoids, avoid) gone =
      run-codes code (step upper s c) cs avoid (step-codes code s c avoids gone)

  run-refresh :
      (token : String) (s : Store) (cs : List Call)
      → All (AvoidsRefresh token) cs
      → get s.refresh token ≡ none
      → get (run upper s cs).refresh token ≡ none
  unfolding run
  run-refresh token s [] avoid gone = gone
  run-refresh token s (c ∷ cs) (avoids, avoid) gone =
      run-refresh token (step upper s c) cs avoid (step-refresh token s c avoids gone)

-- A code is good for one exchange: once it has been consumed, with or without success, no later
-- exchange gets a grant for it, whatever calls the store serves in between, as long as none saves
-- the same code again.
pub code_single_use :
    (upper : Char → Char) (code : String) (first later : ℕ) (s : Store) (cs : List Call)
    → All (AvoidsCode code) cs
    → (consume_code later code (run upper (consume_code first code s).0 cs)).1 ≡ none
code_single_use upper code first later s cs avoid =
    (consume_code_lem later code _).0
    ∙ ap (alive (code_expired later))
        (run-codes upper code _ cs avoid (consume_code_lem first code s).1)

-- A refresh token is good for one exchange: once it has been consumed, with or without success, no
-- later exchange gets a grant for it, whatever calls the store serves in between, as long as none
-- saves the same token again.
pub refresh_single_use :
    (upper : Char → Char) (token : String) (first later : ℕ) (s : Store) (cs : List Call)
    → All (AvoidsRefresh token) cs
    → (consume_refresh_token later token (run upper (consume_refresh_token first token s).0 cs)).1
      ≡ none
refresh_single_use upper token first later s cs avoid =
    (consume_refresh_token_lem later token _).0
    ∙ ap (alive (refresh_expired later))
        (run-refresh upper token _ cs avoid (consume_refresh_token_lem first token s).1)

-- A revoked refresh token is never exchanged again, whatever calls follow, as long as none saves the
-- same token.
pub revoked_stays_revoked :
    (upper : Char → Char) (token : String) (later : ℕ) (s : Store) (cs : List Call)
    → All (AvoidsRefresh token) cs
    → (consume_refresh_token later token (run upper (revoke_refresh_token token s).0 cs)).1 ≡ none
revoked_stays_revoked upper token later s cs avoid =
    (consume_refresh_token_lem later token _).0
    ∙ ap (alive (refresh_expired later))
        (run-refresh upper token _ cs avoid (revoke_refresh_token_lem token s))
