-- ===== src/Grants/UserCode.antt =====
-- User codes as people type them: hyphens and case do not matter.
use Prim.Native.String.{[], ◌∷◌}
use fake_auth.Base.{ℕ, Char, code, String, ◌≡◌, refl, ap, same, Bool-cases, inl, inr}
use fake_auth.Text.{remove_hyphens, to_upper}
use fake_auth.Grants.{Store, normalize, authorize_device_code}

-- What unicode.ToUpper does: it is idempotent, and neither makes a hyphen nor changes one.
pub record IsUpper (upper : Char → Char) : Type 0 where
  pub idem : (c : Char) → upper (upper c) ≡ upper c
  pub hyphen : (c : Char) → same (code (upper c)) b'-' ≡ same (code c) b'-'

module _ (upper : Char → Char) (u : IsUpper upper) where
  normalize-normalize : (s : String) → normalize upper (normalize upper s) ≡ normalize upper s
  unfolding normalize remove_hyphens to_upper
  normalize-normalize [] = refl
  normalize-normalize (c ∷ s) = elim (Bool-cases (same (code c) b'-')) [
    | inl hit ↦ rw hit (normalize-normalize s)
    | inr miss ↦
        rw (miss, u.hyphen c, miss, u.idem c) (ap (λ r. upper c ∷ r) (normalize-normalize s))
  ]

  normalize-to_upper : (s : String) → normalize upper (to_upper upper s) ≡ normalize upper s
  unfolding normalize remove_hyphens to_upper
  normalize-to_upper [] = refl
  normalize-to_upper (c ∷ s) = elim (Bool-cases (same (code c) b'-')) [
    | inl hit ↦ rw (hit, u.hyphen c, hit) (normalize-to_upper s)
    | inr miss ↦
        rw (miss, u.hyphen c, miss, u.idem c) (ap (λ r. upper c ∷ r) (normalize-to_upper s))
  ]

  normalize-remove_hyphens : (s : String) → normalize upper (remove_hyphens s) ≡ normalize upper s
  unfolding normalize remove_hyphens to_upper
  normalize-remove_hyphens [] = refl
  normalize-remove_hyphens (c ∷ s) = elim (Bool-cases (same (code c) b'-')) [
    | inl hit ↦ rw hit (normalize-remove_hyphens s)
    | inr miss ↦ rw (miss, miss) (ap (λ r. upper c ∷ r) (normalize-remove_hyphens s))
  ]

  -- For an idempotent upper-casing that leaves hyphens alone, approving a device does the same
  -- whether its user code is typed as shown, in capitals, without its hyphens, or both.
  pub authorize_as_typed :
      (now : ℕ) (user_code user_id : String) (s : Store)
      → (authorize_device_code upper now (to_upper upper user_code) user_id s
          ≡ authorize_device_code upper now user_code user_id s)
        × (authorize_device_code upper now (remove_hyphens user_code) user_id s
            ≡ authorize_device_code upper now user_code user_id s)
        × (authorize_device_code upper now (normalize upper user_code) user_id s
            ≡ authorize_device_code upper now user_code user_id s)
  unfolding authorize_device_code
  authorize_as_typed now user_code user_id s = (
    rw (normalize-to_upper user_code),
    rw (normalize-remove_hyphens user_code),
    rw (normalize-normalize user_code),
  )
