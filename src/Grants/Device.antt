-- ===== src/Grants/Device.antt =====
-- The life of a device code: pending, approved or denied, consumed.
pub mod Trust
use fake_auth.Base.{
  ℕ, ◌+◌, ◌≤◌, Char, String, ◌≡◌, refl, ap, ◌∙◌, ◌≢◌, Bool, true, false, not, ◌||◌, Option, none,
  some, List, [], ◌∷◌, arith, ◌==◌, eq_iff, after, if◌then◌else◌, Bool-cases, Option-cases, inl,
  inr,
}
use fake_auth.Dict.{
  Dict, get, put, remove, entries, get-put, get-remove, get-put_self, get-remove_self,
}
use fake_auth.Dict.Range.{sweep, sweep_from, get-sweep, alive}
use fake_auth.Grants.{
  DeviceCode, Store, device_expired, normalize, clean_devices_from, clean_expired_devices,
  save_device_code, usable, get_device_code, authorize_found, authorize_at, authorize_device_code,
  deny_found, deny_at, deny_device_code, take_device, consume_device_code,
}

module _ (upper : Char → Char) where
  devices-clean_from :
      (now : ℕ) (es : List (String × DeviceCode)) (s : Store)
      → (clean_devices_from upper now es s).devices ≡ sweep_from (device_expired now) es s.devices
  unfolding clean_devices_from sweep_from
  devices-clean_from now [] s = refl
  devices-clean_from now ((k, v) ∷ es) s =
      let t =
        if device_expired now v
        then record s {
          devices = remove s.devices k;
          user_codes = remove s.user_codes (normalize upper v.user_code);
        }
        else s in
      devices-clean_from now es t ∙ ap (sweep_from (device_expired now) es) (ground arith)

  -- The clean-up deletes the expired devices, and no other.
  pub get-clean_expired_devices :
      (now : ℕ) (s : Store) (device_code : String)
      → get (clean_expired_devices upper now s).devices device_code
        ≡ alive (device_expired now) (get s.devices device_code)
  unfolding clean_expired_devices sweep
  get-clean_expired_devices now s device_code =
      rw (devices-clean_from now (entries s.devices) s)
        (get-sweep (device_expired now) s.devices device_code)

  -- A device as it is saved.
  abbrev pub saved : ℕ → Store → DeviceCode → DeviceCode
  saved stamp s dc = record dc { expires_at = stamp + s.device_ttl; interval = 5 }

  get-save_device_code :
      (stamp now : ℕ) (device_code user_code : String) (dc : DeviceCode) (s : Store)
      → (get (save_device_code upper stamp now device_code user_code dc s).devices device_code
          ≡ some (saved stamp s dc))
        × (get
              (save_device_code upper stamp now device_code user_code dc s).user_codes
              (normalize upper user_code)
            ≡ some device_code)
  unfolding save_device_code
  get-save_device_code stamp now device_code user_code dc s =
      (get-put_self _ _ _, get-put_self _ _ _)

  authorize_known :
      (now : ℕ) (device_code user_code user_id : String) (dc : DeviceCode) (s : Store)
      → get s.user_codes (normalize upper user_code) ≡ some device_code
      → get s.devices device_code ≡ some dc
      → dc.expired ≡ false
      → now ≤ dc.expires_at
      → authorize_device_code upper now user_code user_id s ≡ (
        record s {
          devices =
              put s.devices device_code (record dc { user_authorized = true; user_id = user_id });
        },
        true,
      )
  unfolding authorize_device_code
  authorize_known now device_code user_code user_id dc s coded found alive_dc early =
      rw (coded, authorize_at, found, authorize_found) (ground arith)

  consume_known :
      (now : ℕ) (device_code : String) (dc : DeviceCode) (s : Store)
      → get s.devices device_code ≡ some dc
      → dc.user_authorized ≡ true
      → dc.expired ≡ false
      → now ≤ dc.expires_at
      → (consume_device_code upper now device_code s).1 ≡ some dc
  unfolding consume_device_code
  consume_known now device_code dc s found approved alive_dc early =
      rw (found, take_device) (ground arith)

  -- The device flow: a device that is saved with a user code, and then approved by that code for a
  -- user, can be consumed up to the end of its term, and yields what was saved, with that user.
  pub device_flow :
      (stamp swept approved now : ℕ) (device_code user_code user_id : String) (dc : DeviceCode)
      (s : Store)
      → dc.expired ≡ false
      → approved ≤ stamp + s.device_ttl
      → now ≤ stamp + s.device_ttl
      → let pending = save_device_code upper stamp swept device_code user_code dc s in
        let ready = authorize_device_code upper approved user_code user_id pending in
        (ready.1 ≡ true)
        × ((consume_device_code upper now device_code ready.0).1
            ≡ some (record dc {
              expires_at = stamp + s.device_ttl;
              interval = 5;
              user_authorized = true;
              user_id = user_id;
            }))
  device_flow stamp swept approved now device_code user_code user_id dc s whole h k =
      let pending = save_device_code upper stamp swept device_code user_code dc s in
      let (found, coded) = get-save_device_code stamp swept device_code user_code dc s in
      let e =
        authorize_known approved device_code user_code user_id (saved stamp s dc) pending coded
          found whole h in
      rw e (refl, consume_known now device_code _ _ (get-put_self _ _ _) refl whole k)

  take_device_sound :
      (now : ℕ) (device_code : String) (dc : DeviceCode) (s : Store) (o : Option DeviceCode)
      → (take_device upper now device_code s o).1 ≡ some dc
      → (o ≡ some dc)
        × (dc.user_authorized ≡ true)
        × (dc.expired ≡ false)
        × (now ≤ dc.expires_at)
        × ((take_device upper now device_code s o).0 ≡ record s {
          devices = remove s.devices device_code;
          user_codes = remove s.user_codes (normalize upper dc.user_code);
        })
  unfolding take_device
  take_device_sound now device_code dc s none taken = cc
  take_device_sound now device_code dc s (some x) taken =
      (ground arith, ground arith, ground arith, ground arith, ground arith)

  -- What is consumed was stored, approved and not expired, and it is gone afterwards, with the
  -- entry of its user code.
  pub consume_device_code_sound :
      (now : ℕ) (device_code : String) (dc : DeviceCode) (s : Store)
      → (consume_device_code upper now device_code s).1 ≡ some dc
      → (get s.devices device_code ≡ some dc)
        × (dc.user_authorized ≡ true)
        × (dc.expired ≡ false)
        × (now ≤ dc.expires_at)
        × (get (consume_device_code upper now device_code s).0.devices device_code ≡ none)
        × (get
              (consume_device_code upper now device_code s).0.user_codes
              (normalize upper dc.user_code)
            ≡ none)
  unfolding consume_device_code
  consume_device_code_sound now device_code dc s taken =
      let (found, approved, whole, early, left) =
        take_device_sound now device_code dc s (get s.devices device_code) taken in
      (found, approved, whole, early, rw left (get-remove_self _ _), rw left (get-remove_self _ _))
