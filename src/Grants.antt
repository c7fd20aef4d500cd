-- ===== src/Grants.antt =====
-- internal/grants/store.go: authorization codes, refresh tokens and device codes. Each method holds
-- the store's mutex from its first read of a map to its return, so it is one step. Each reading of
-- the clock is an argument, in the order of the code.
pub mod OneTime
pub mod History
pub mod UserCode
pub mod Device
pub mod Refinement
use fake_auth.Base.{
  ℕ, ◌+◌, ◌*◌, ℤ, Char, String, Bool, true, false, not, ◌||◌, Option, none, some, List, [], ◌∷◌,
  after, positive_or, if◌then◌else◌, is_some,
}
use fake_auth.Dict.{Dict, get, put, remove, entries}
use fake_auth.Dict.Range.{sweep}
use fake_auth.Text.{remove_hyphens, to_upper}

pub record AuthCode : Type 0 where
  pub user_id : String
  pub client_id : String
  pub redirect_uri : String
  pub scope : String
  pub audience : String
  pub nonce : String
  pub session_id : String
  pub code_challenge : String
  pub code_challenge_method : String
  pub expires_at : ℕ

pub record RefreshGrant : Type 0 where
  pub user_id : String
  pub client_id : String
  pub scope : String
  pub audience : String
  pub session_id : String
  pub expires_at : ℕ

pub record DeviceCode : Type 0 where
  pub device_code : String
  pub user_code : String
  pub user_id : String
  pub client_id : String
  pub scope : String
  pub audience : String
  pub expires_at : ℕ
  pub interval : ℕ
  pub user_authorized : Bool
  pub access_denied : Bool
  pub expired : Bool

pub record Store : Type 0 where
  pub codes : Dict AuthCode
  pub refresh : Dict RefreshGrant
  pub devices : Dict DeviceCode
  pub user_codes : Dict String
  pub code_ttl : ℕ
  pub refresh_ttl : ℕ
  pub device_ttl : ℕ

-- time.Minute and time.Hour, in nanoseconds
abbrev pub minute : ℕ
minute = 60 * 1000000000

abbrev pub hour : ℕ
hour = 60 * minute

-- The optional third argument.
abbrev pub device_ttl_of : List ℤ → ℕ
device_ttl_of [] = 15 * minute
device_ttl_of (d ∷ ds) = positive_or d (15 * minute)

unfoldable pub new_store : ℤ → ℤ → List ℤ → Store
new_store code_ttl refresh_ttl device_ttl = record {
  codes = [];
  refresh = [];
  devices = [];
  user_codes = [];
  code_ttl = positive_or code_ttl (5 * minute);
  refresh_ttl = positive_or refresh_ttl (30 * 24 * hour);
  device_ttl = device_ttl_of device_ttl;
}

abbrev pub code_expired : ℕ → AuthCode → Bool
code_expired now ac = after now ac.expires_at

abbrev pub refresh_expired : ℕ → RefreshGrant → Bool
refresh_expired now rg = after now rg.expires_at

abbrev pub device_expired : ℕ → DeviceCode → Bool
device_expired now dc = after now dc.expires_at || dc.expired

unfoldable pub clean_expired_codes : ℕ → Store → Store
clean_expired_codes now s = record s { codes = sweep (code_expired now) s.codes }

unfoldable pub clean_expired_refresh : ℕ → Store → Store
clean_expired_refresh now s = record s { refresh = sweep (refresh_expired now) s.refresh }

unfoldable pub save_code : ℕ → ℕ → String → AuthCode → Store → Store
unfolding clean_expired_codes
save_code stamp now code ac s =
    let cleaned = clean_expired_codes now s in
    record cleaned {
      codes = put cleaned.codes code (record ac { expires_at = stamp + s.code_ttl });
    }

take_code : ℕ → String → Store → Option AuthCode → Store × Option AuthCode
take_code now code s none = (s, none)
take_code now code s (some ac) =
    let left = record s { codes = remove s.codes code } in
    if after now ac.expires_at then (left, none) else (left, some ac)

unfoldable pub consume_code : ℕ → String → Store → Store × Option AuthCode
unfolding take_code
consume_code now code s = take_code now code s (get s.codes code)

unfoldable pub save_refresh_token : ℕ → ℕ → String → RefreshGrant → Store → Store
unfolding clean_expired_refresh
save_refresh_token stamp now token rg s =
    let cleaned = clean_expired_refresh now s in
    record cleaned {
      refresh = put cleaned.refresh token (record rg { expires_at = stamp + s.refresh_ttl });
    }

unfoldable pub take_refresh : ℕ → String → Store → Option RefreshGrant → Store × Option RefreshGrant
take_refresh now token s none = (s, none)
take_refresh now token s (some rg) =
    let left = record s { refresh = remove s.refresh token } in
    if after now rg.expires_at then (left, none) else (left, some rg)

unfoldable pub consume_refresh_token : ℕ → String → Store → Store × Option RefreshGrant
unfolding take_refresh
consume_refresh_token now token s = take_refresh now token s (get s.refresh token)

unfoldable pub revoke_refresh_token : String → Store → Store × Bool
revoke_refresh_token token s = elim (get s.refresh token) [
  | none ↦ (s, false)
  | some rg ↦ (record s { refresh = remove s.refresh token }, true)
]

unfoldable pub usable : ℕ → Option DeviceCode → Option DeviceCode
usable now none = none
usable now (some dc) = if dc.expired || after now dc.expires_at then none else some dc

-- `upper` is unicode.ToUpper.
module _ (upper : Char → Char) where
  -- strings.ToUpper(strings.ReplaceAll(userCode, "-", ""))
  unfoldable pub normalize : String → String
  normalize user_code = to_upper upper (remove_hyphens user_code)

  -- One round of cleanExpiredDevicesLocked for each pair still to visit.
  clean_devices_from : ℕ → List (String × DeviceCode) → Store → Store
  unfolding normalize
  clean_devices_from now [] s = s
  clean_devices_from now ((k, v) ∷ es) s = clean_devices_from now es (
      if device_expired now v
      then record s {
        devices = remove s.devices k;
        user_codes = remove s.user_codes (normalize v.user_code);
      }
      else s)

  unfoldable pub clean_expired_devices : ℕ → Store → Store
  unfolding clean_devices_from entries
  clean_expired_devices now s = clean_devices_from now (entries s.devices) s

  unfoldable pub save_device_code : ℕ → ℕ → String → String → DeviceCode → Store → Store
  unfolding clean_expired_devices
  save_device_code stamp now device_code user_code dc s =
      let cleaned = clean_expired_devices now s in
      record cleaned {
        devices =
            put cleaned.devices device_code
              (record dc { expires_at = stamp + s.device_ttl; interval = 5 });
        user_codes = put cleaned.user_codes (normalize user_code) device_code;
      }

  unfoldable pub get_device_code : ℕ → ℕ → String → Store → Store × Option DeviceCode
  unfolding clean_expired_devices usable
  get_device_code swept checked device_code s =
      let cleaned = clean_expired_devices swept s in
      (cleaned, usable checked (get cleaned.devices device_code))

  authorize_found : ℕ → String → String → Store → Option DeviceCode → Store × Bool
  authorize_found now device_code user_id s none = (s, false)
  authorize_found now device_code user_id s (some dc) =
      if dc.expired || after now dc.expires_at then (s, false) else (
        record s {
          devices =
              put s.devices device_code (record dc { user_authorized = true; user_id = user_id });
        },
        true,
      )

  authorize_at : ℕ → String → Store → Option String → Store × Bool
  unfolding authorize_found
  authorize_at now user_id s none = (s, false)
  authorize_at now user_id s (some device_code) =
      authorize_found now device_code user_id s (get s.devices device_code)

  unfoldable pub authorize_device_code : ℕ → String → String → Store → Store × Bool
  unfolding authorize_at
  authorize_device_code now user_code user_id s =
      authorize_at now user_id s (get s.user_codes (normalize user_code))

  deny_found : String → Store → Option DeviceCode → Store × Bool
  deny_found device_code s none = (s, false)
  deny_found device_code s (some dc) =
      (record s { devices = put s.devices device_code (record dc { access_denied = true }) }, true)

  deny_at : Store → Option String → Store × Bool
  unfolding deny_found
  deny_at s none = (s, false)
  deny_at s (some device_code) = deny_found device_code s (get s.devices device_code)

  unfoldable pub deny_device_code : String → Store → Store × Bool
  unfolding deny_at
  deny_device_code user_code s = deny_at s (get s.user_codes (normalize user_code))

  take_device : ℕ → String → Store → Option DeviceCode → Store × Option DeviceCode
  unfolding normalize
  take_device now device_code s none = (s, none)
  take_device now device_code s (some dc) =
      if not dc.user_authorized || (dc.expired || after now dc.expires_at) then (s, none) else (
        record s {
          devices = remove s.devices device_code;
          user_codes = remove s.user_codes (normalize dc.user_code);
        },
        some dc,
      )

  unfoldable pub consume_device_code : ℕ → String → Store → Store × Option DeviceCode
  unfolding take_device
  consume_device_code now device_code s = take_device now device_code s (get s.devices device_code)
