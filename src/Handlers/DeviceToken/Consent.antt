-- ===== src/Handlers/DeviceToken/Consent.antt =====
-- What the device grant asks of the user before it hands out tokens.
use fake_auth.Base.{
  ℕ, ◌≤◌, String, ◌≡◌, refl, sym, ap, ◌∙◌, true, false, ◌||◌, Option, none, some, Bool-cases,
  Option-cases, inl, inr, arith, ◌==◌, or_else, after,
}
use fake_auth.Dict.{get}
use fake_auth.Dict.Range.{alive}
use fake_auth.Grants
use fake_auth.Grants.{
  DeviceCode, device_expired, clean_expired_devices, usable, get_device_code, consume_device_code,
}
use fake_auth.Grants.Device.{get-clean_expired_devices}
use fake_auth.Handlers.{Env, Draws, Config, State}
use fake_auth.Handlers.CodeExchange.Soundness.{issues_tokens}
use fake_auth.Handlers.DeviceToken.{polled, handle_device_code_token}

-- A device code that a user has approved, has not denied, and whose term has not ended.
pub record IsApproved (now : ℕ) (dc : DeviceCode) : Type 0 where
  pub approved : dc.user_authorized ≡ true
  pub undenied : dc.access_denied ≡ false
  pub unexpired : dc.expired ≡ false
  pub in_term : now ≤ dc.expires_at

usable-some :
    (now : ℕ) (swept : ℕ) (o : Option DeviceCode) (dc : DeviceCode)
    → usable now (alive (device_expired swept) o) ≡ some dc
    → (o ≡ some dc) × (dc.expired ≡ false) × (now ≤ dc.expires_at)
unfolding usable
usable-some now swept none dc h = absurd (cc h)
usable-some now swept (some other) dc h = elim (Bool-cases (device_expired swept other)) [
  | inl old ↦ absurd (cc (rw (old, usable) at h))
  | inr kept ↦ elim (Bool-cases (other.expired || after now other.expires_at)) [
    | inl late ↦ absurd (cc (rw late at rw (kept, usable) at h))
    | inr fresh ↦
        let same_code : some other ≡ some dc = rw fresh at rw (kept, usable) at h in
        let same_flag : other.expired ≡ dc.expired =
          ap (λ o. (or_else o other).expired) same_code in
        let same_term : other.expires_at ≡ dc.expires_at =
          ap (λ o. (or_else o other).expires_at) same_code in
        (same_code, sym same_flag ∙ ground arith, ground arith)
  ]
]

module _ (cfg : Config) (env : Env) (draws : Draws) (s : State) (device_code : String) where
  polled_approved :
      (g : Grants.Store) (o : Option DeviceCode)
      → issues_tokens (polled cfg env draws s device_code (g, o)).1 ≡ true
      → (dc : DeviceCode) × (o ≡ some dc) × (dc.user_authorized ≡ true) × (dc.access_denied ≡ false)
  unfolding polled
  polled_approved g none h = absurd (cc h)
  polled_approved g (some dc) h = elim (Bool-cases dc.access_denied) [
    | inl denied ↦ absurd (cc (rw denied at h))
    | inr undenied ↦ elim (Bool-cases dc.user_authorized) [
      | inl approved ↦ (dc, refl, approved, undenied)
      | inr pending ↦ absurd (cc (rw pending at rw undenied at h))
    ]
  ]

-- A device code is exchanged for tokens only if it stands in the store, in its term, and a user has
-- approved it and has not denied it.
pub device_tokens_only_if_consented :
    (cfg : Config) (env : Env) (draws : Draws) (s : State) (device_code : String)
    → issues_tokens (handle_device_code_token cfg env draws s device_code).1 ≡ true
    → (g : Grants.Store) × (s.grant_store ≡ some g)
      × (dc : DeviceCode) × (get g.devices device_code ≡ some dc)
      × IsApproved (draws.clock 1) dc
unfolding handle_device_code_token get_device_code
device_tokens_only_if_consented cfg env draws s device_code h = elim (Option-cases s.grant_store) [
  | inl unset ↦ absurd (cc (rw (unset, handle_device_code_token) at h))
  | inr (g, set) ↦ elim (Bool-cases (device_code == "")) [
    | inl empty ↦
        absurd
          (cc (rw (empty, handle_device_code_token) at rw (set, handle_device_code_token) at h))
    | inr given ↦
        let (dc, handed, approved, undenied) =
          polled_approved cfg env draws s device_code
            (get_device_code env.upper (draws.clock 0) (draws.clock 1) device_code g).0
            (get_device_code env.upper (draws.clock 0) (draws.clock 1) device_code g).1
            (rw given at rw (set, handle_device_code_token) at h) in
        let (held, unexpired, in_term) =
          usable-some (draws.clock 1) (draws.clock 0) (get g.devices device_code) dc (
            ap (usable (draws.clock 1))
              (sym (get-clean_expired_devices env.upper (draws.clock 0) g device_code))
            ∙ handed) in
        (
          g,
          set,
          dc,
          held,
          record {
            approved = approved;
            undenied = undenied;
            unexpired = unexpired;
            in_term = in_term;
          },
        )
  ]
]
