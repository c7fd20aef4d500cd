-- ===== src/Grants/Device/Trust.antt =====
-- Properties of a device that every history of calls keeps: a denial, and who approved it.
use fake_auth.Base.{
  ℕ, Char, String, ◌≡◌, refl, ◌≢◌, ◌⊎◌, inl, inr, true, Option, none, some, List, [], ◌∷◌, arith,
  ◌==◌, eq_iff, All, Bool-cases, after, not, ◌||◌,
}
use fake_auth.Dict.{get, get-put, get-remove, put}
use fake_auth.Dict.Range.{alive}
use fake_auth.Grants.{
  DeviceCode, Store, device_expired, clean_expired_devices, save_device_code, save_code,
  consume_code, take_code, save_refresh_token, consume_refresh_token, take_refresh,
  revoke_refresh_token, get_device_code, authorize_device_code, authorize_at, authorize_found,
  deny_device_code, deny_at, deny_found, consume_device_code, take_device, normalize,
}
use fake_auth.Grants.History.{
  Call, saves_code, consumes_code, saves_refresh, consumes_refresh, revokes_refresh, saves_device,
  gets_device, authorizes, denies, consumes_device, step, run,
}
use fake_auth.Grants.Device.{get-clean_expired_devices, consume_device_code_sound}

-- The predicate holds of the device, if there is one.
abbrev pub Holds : (DeviceCode → Type 0) → Option DeviceCode → Type 0
Holds Q none = Unit
Holds Q (some dc) = Q dc

-- What each call must keep of a predicate on the device of one device code.
abbrev pub Keeps : (DeviceCode → Type 0) → String → Call → Type 0
Keeps Q device_code (saves_device stamp now other user_code dc) =
    (other ≢ device_code) ⊎ ((t : ℕ) → Q (record dc { expires_at = t; interval = 5 }))
Keeps Q device_code (authorizes now user_code user_id) =
    (dc : DeviceCode) → Q dc → Q (record dc { user_authorized = true; user_id = user_id })
Keeps Q device_code (denies user_code) =
    (dc : DeviceCode) → Q dc → Q (record dc { access_denied = true })
Keeps Q device_code _ = Unit

consume_code-devices :
    (now : ℕ) (code : String) (s : Store) → (consume_code now code s).0.devices ≡ s.devices
unfolding consume_code take_code
consume_code-devices now code s = ground arith

consume_refresh_token-devices :
    (now : ℕ) (token : String) (s : Store)
    → (consume_refresh_token now token s).0.devices ≡ s.devices
unfolding consume_refresh_token take_refresh
consume_refresh_token-devices now token s = ground arith

revoke_refresh_token-devices :
    (token : String) (s : Store) → (revoke_refresh_token token s).0.devices ≡ s.devices
unfolding revoke_refresh_token
revoke_refresh_token-devices token s = ground arith

module _ (upper : Char → Char) (Q : DeviceCode → Type 0) (device_code : String) where
  Holds-alive :
      (now : ℕ) (o : Option DeviceCode) → Holds Q o → Holds Q (alive (device_expired now) o)
  Holds-alive now none h = tt
  Holds-alive now (some dc) h = elim (Bool-cases (device_expired now dc)) [
    | inl dead ↦ rw dead tt
    | inr live ↦ rw live h
  ]

  Holds-clean :
      (now : ℕ) (s : Store)
      → Holds Q (get s.devices device_code)
      → Holds Q (get (clean_expired_devices upper now s).devices device_code)
  Holds-clean now s h = rw (get-clean_expired_devices upper now s device_code) (Holds-alive now _ h)

  -- A write under one key, of a value that satisfies the predicate where the key is the device's.
  Holds-put :
      (s : Store) (other : String) (dc : DeviceCode)
      → (other ≡ device_code → Q dc)
      → Holds Q (get s.devices device_code)
      → Holds Q (get (put s.devices other dc) device_code)
  Holds-put s other dc here there =
      rw (get-put s.devices other device_code dc) (elim (Bool-cases (other == device_code)) [
        | inl hit ↦ rw hit (here ((eq_iff other device_code).0 hit))
        | inr miss ↦ rw miss there
      ])

  Holds-authorize_found :
      (now : ℕ) (d user_id : String) (s : Store) (o : Option DeviceCode)
      → ((dc : DeviceCode) → Q dc → Q (record dc { user_authorized = true; user_id = user_id }))
      → get s.devices d ≡ o
      → Holds Q (get s.devices device_code)
      → Holds Q (get (authorize_found upper now d user_id s o).0.devices device_code)
  unfolding authorize_found
  Holds-authorize_found now d user_id s none keep e h = h
  Holds-authorize_found now d user_id s (some dc) keep e h =
      elim (Bool-cases (dc.expired || after now dc.expires_at)) [
        | inl late ↦ rw late h
        | inr early ↦ rw early (Holds-put s d _ (λ p. keep dc (rw (← p, e) at h)) h)
      ]

  Holds-authorize_at :
      (now : ℕ) (user_id : String) (s : Store) (o : Option String)
      → ((dc : DeviceCode) → Q dc → Q (record dc { user_authorized = true; user_id = user_id }))
      → Holds Q (get s.devices device_code)
      → Holds Q (get (authorize_at upper now user_id s o).0.devices device_code)
  unfolding authorize_at
  Holds-authorize_at now user_id s none keep h = h
  Holds-authorize_at now user_id s (some d) keep h =
      Holds-authorize_found now d user_id s (get s.devices d) keep refl h

  Holds-deny_found :
      (d : String) (s : Store) (o : Option DeviceCode)
      → ((dc : DeviceCode) → Q dc → Q (record dc { access_denied = true }))
      → get s.devices d ≡ o
      → Holds Q (get s.devices device_code)
      → Holds Q (get (deny_found upper d s o).0.devices device_code)
  unfolding deny_found
  Holds-deny_found d s none keep e h = h
  Holds-deny_found d s (some dc) keep e h = Holds-put s d _ (λ p. keep dc (rw (← p, e) at h)) h

  Holds-deny_at :
      (s : Store) (o : Option String)
      → ((dc : DeviceCode) → Q dc → Q (record dc { access_denied = true }))
      → Holds Q (get s.devices device_code)
      → Holds Q (get (deny_at upper s o).0.devices device_code)
  unfolding deny_at
  Holds-deny_at s none keep h = h
  Holds-deny_at s (some d) keep h = Holds-deny_found d s (get s.devices d) keep refl h

  Holds-take_device :
      (now : ℕ) (d : String) (s : Store) (o : Option DeviceCode)
      → Holds Q (get s.devices device_code)
      → Holds Q (get (take_device upper now d s o).0.devices device_code)
  unfolding take_device
  Holds-take_device now d s none h = h
  Holds-take_device now d s (some dc) h =
      elim (Bool-cases (not dc.user_authorized || (dc.expired || after now dc.expires_at))) [
        | inl refused ↦ rw refused h
        | inr taken ↦
            rw (taken, get-remove s.devices d device_code)
              (elim (Bool-cases (d == device_code)) [ inl hit ↦ rw hit tt | inr miss ↦ rw miss h ])
      ]

  step-Holds :
      (s : Store) (c : Call)
      → Keeps Q device_code c
      → Holds Q (get s.devices device_code)
      → Holds Q (get (step upper s c).devices device_code)
  unfolding step save_code consume_code take_code save_refresh_token consume_refresh_token
      take_refresh revoke_refresh_token save_device_code get_device_code authorize_device_code
      deny_device_code consume_device_code
  step-Holds s (saves_code stamp now code ac) keep h = h
  step-Holds s (consumes_code now code) keep h = rw (consume_code-devices now code s) h
  step-Holds s (saves_refresh stamp now token rg) keep h = h
  step-Holds s (consumes_refresh now token) keep h =
      rw (consume_refresh_token-devices now token s) h
  step-Holds s (revokes_refresh token) keep h = rw (revoke_refresh_token-devices token s) h
  step-Holds s (saves_device stamp now other user_code dc) (inl apart) h =
      Holds-put (clean_expired_devices upper now s) other _ (λ p. absurd (apart p))
        (Holds-clean now s h)
  step-Holds s (saves_device stamp now other user_code dc) (inr keep) h =
      Holds-put (clean_expired_devices upper now s) other _ (λ p. keep _) (Holds-clean now s h)
  step-Holds s (gets_device swept checked d) keep h = Holds-clean swept s h
  step-Holds s (authorizes now user_code user_id) keep h =
      Holds-authorize_at now user_id s (get s.user_codes (normalize upper user_code)) keep h
  step-Holds s (denies user_code) keep h =
      Holds-deny_at s (get s.user_codes (normalize upper user_code)) keep h
  step-Holds s (consumes_device now d) keep h = Holds-take_device now d s (get s.devices d) h

  run-Holds :
      (s : Store) (cs : List Call)
      → All (Keeps Q device_code) cs
      → Holds Q (get s.devices device_code)
      → Holds Q (get (run upper s cs).devices device_code)
  unfolding run
  run-Holds s [] keep h = h
  run-Holds s (c ∷ cs) (keep, rest) h = run-Holds (step upper s c) cs rest (step-Holds s c keep h)

-- A denial is final: once the device is marked denied, every later state of the store has it
-- denied or not at all, whatever calls follow, approvals included, as long as none saves an
-- undenied device under the same code.
pub denial_is_final :
    (upper : Char → Char) (device_code : String) (s : Store) (cs : List Call)
    → All (Keeps (λ dc. dc.access_denied ≡ true) device_code) cs
    → Holds (λ dc. dc.access_denied ≡ true) (get s.devices device_code)
    → Holds (λ dc. dc.access_denied ≡ true) (get (run upper s cs).devices device_code)
denial_is_final upper device_code = run-Holds upper (λ dc. dc.access_denied ≡ true) device_code

-- For a predicate on users: if at the start the device of a device code is not approved, or is
-- approved for a user that satisfies it, and every call of a history keeps that so, then the user
-- of the device that is consumed after the history satisfies it.
pub consumed_user :
    (upper : Char → Char) (P : String → Type 0) (device_code : String) (s : Store) (cs : List Call)
    (now : ℕ) (dc : DeviceCode)
    → All (Keeps (λ d. d.user_authorized ≡ true → P d.user_id) device_code) cs
    → Holds (λ d. d.user_authorized ≡ true → P d.user_id) (get s.devices device_code)
    → (consume_device_code upper now device_code (run upper s cs)).1 ≡ some dc
    → P dc.user_id
consumed_user upper P device_code s cs now dc keep start taken =
    let r = consume_device_code_sound upper now device_code dc _ taken in
    let h =
      run-Holds upper (λ d. d.user_authorized ≡ true → P d.user_id) device_code s cs keep start in
    (rw r.0 at h) r.1
