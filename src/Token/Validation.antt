-- ===== src/Token/Validation.antt =====
-- Which tokens `Validate` accepts.
use Prim.Native.String
use Prim.Native.String.{[], ◌∷◌}
use text.Mathlib.TextLemmas.{cons-append}
use fake_auth.Base.{
  ℕ, ◌+◌, ◌*◌, ◌^◌, ◌<◌, ◌≤◌, ℤ, pos, positive_or, String, ◌≡◌, refl, sym, ◌∙◌, ap, ◌↔◌, ◌⊎◌, inl,
  inr, true, false, none, some, arith, ◌==◌, eq_iff, Bool-cases, if_self,
}
use fake_auth.Text.{trim_suffix}
use fake_auth.Dict.{Dict, get}
use fake_auth.Json.{Value, int, string_or_empty}
use fake_auth.Token.Access.{get-access_claims}
use fake_auth.Token.{
  issue, Jwt, Issuer, Parsed, failed, parsed, accepted, accept, issuer_matches, validate, unix,
  second,
}

-- Cutting a slash off the end cuts nothing, or exactly the slash.
trim_slash_cases :
    (s : String) → (s ≡ trim_suffix s "/") ⊎ (s ≡ String.◌++◌ (trim_suffix s "/") "/")
unfolding trim_suffix
trim_slash_cases [] = inl refl
trim_slash_cases (c ∷ s) = elim (Bool-cases ((c ∷ s) == "/")) [
  | inl only ↦ rw only (inr ((eq_iff (c ∷ s) "/").0 only))
  | inr more ↦ rw more (elim (trim_slash_cases s) [
    | inl e ↦ inl (ap (λ r. c ∷ r) e)
    | inr e ↦ inr (ap (λ r. c ∷ r) e ∙ sym (cons-append c (trim_suffix s "/") "/"))
  ])
]

-- The issuer's own name is always accepted.
pub issuer_matches_self : (i : Issuer) → issuer_matches i i.issuer ≡ true
unfolding issuer_matches
issuer_matches_self i =
    let cut = trim_suffix i.issuer "/" in
    ground
      (arith, trim_slash_cases i.issuer, eq_iff i.issuer cut, eq_iff i.issuer (String.◌++◌ cut "/"))

accept_sound :
    (i : Issuer) (p : Parsed) (claims : Dict Value)
    → accept i p ≡ accepted claims
    → (p ≡ parsed claims true) × (issuer_matches i (string_or_empty (get claims "iss")) ≡ true)
unfolding accept
accept_sound i (failed text) claims h = cc
accept_sound i (parsed c false) claims h = cc
accept_sound i (parsed c true) claims h =
    elim (Bool-cases (issuer_matches i (string_or_empty (get c "iss")))) [
      | inl own ↦ let e : c ≡ claims = cc (rw own at h) in (rw e refl, rw e at own)
      | inr other ↦ cc (rw other at h)
    ]

module _ (jwt : Jwt) (i : Issuer) (now : ℕ) (token : String) (claims : Dict Value) where
  -- A token is accepted exactly when the library verifies it at that instant, calls it valid, and
  -- it names this issuer, with or without a trailing slash; its claims are then the token's.
  pub validate_iff : (validate jwt i now token ≡ accepted claims) ↔ (
      (jwt.parse now token ≡ parsed claims true)
      × (issuer_matches i (string_or_empty (get claims "iss")) ≡ true))
  unfolding validate
  validate_iff = (
    accept_sound i (jwt.parse now token) claims,
    λ (verified, own). rw (verified, accept, own) refl,
  )

-- The claims about time, in seconds since the epoch, hold at the instant; without a claim there is
-- no bound. The library reads the seconds as a float64, which is exact below 2^53.
abbrev pub InTerm : ℕ → Dict Value → Type 0
InTerm now signed =
    ((get signed "exp" ≡ none)
      ⊎ ((t : ℕ) × (get signed "exp" ≡ some (int (pos t))) × (t < 2 ^ 53) × (now < t * second)))
    × ((get signed "nbf" ≡ none)
        ⊎ ((t : ℕ) × (get signed "nbf" ≡ some (int (pos t))) × (t < 2 ^ 53) × (t * second ≤ now)))

-- The library verifies what it signed, as long as it is in its term, and reads the issuer as it was
-- written.
abbrev pub ReadsIssuer : Jwt → Type 0
ReadsIssuer jwt =
    (kid token : String) (signed : Dict Value) (now : ℕ)
    → jwt.sign kid signed ≡ some token
    → InTerm now signed
    → (claims : Dict Value) × (jwt.parse now token ≡ parsed claims true)
      × (get claims "iss" ≡ get signed "iss")

-- What the issuer issues it accepts until it expires: if the library verifies what it signed and
-- what has not expired, an access token whose custom claims set no issuer, no expiry and no start
-- of validity is accepted at every instant before its lifetime, in whole seconds, is over.
pub validate-issue :
    (jwt : Jwt) (i : Issuer) (issued now : ℕ) (sub aud client_id : String) (expires_in : ℤ)
    (custom : Dict Value) (token : String)
    → ReadsIssuer jwt
    → issue jwt i issued sub aud client_id expires_in custom ≡ some token
    → get custom "iss" ≡ none
    → get custom "exp" ≡ none
    → get custom "nbf" ≡ none
    → unix issued + positive_or expires_in 3600 < 2 ^ 53
    → now < (unix issued + positive_or expires_in 3600) * second
    → (claims : Dict Value) × (validate jwt i now token ≡ accepted claims)
unfolding issue
validate-issue jwt i issued now sub aud client_id expires_in custom token reads made silent endless
      startless exact early =
    let at = get-access_claims i issued sub aud client_id expires_in custom in
    let (claims, verified, kept) = reads i.kid token _ now made (
      inr (_, at "exp" ∙ rw (endless, if_self) refl, exact, early),
      inl (at "nbf" ∙ rw (startless, if_self) refl),
    ) in
    (
      claims,
      (validate_iff jwt i now token claims).1
          (verified, rw (kept ∙ at "iss") (rw (silent, if_self) (issuer_matches_self i))),
    )
