-- ===== src/Pkce/Laws.antt =====
-- What `Verify` accepts.
use fake_auth.Base.{String, ◌≡◌, ◌≢◌, ◌↔◌, ◌⊎◌, none, arith, eq_iff}
use fake_auth.Pkce.{verify}
use fake_auth.Text.{or_text}

abbrev pub Accepts : (String → String) → String → String → String → Type 0
Accepts s256 verifier challenge method =
    (verifier ≢ "")
    × (challenge ≢ "")
    × ((((method ≡ "") ⊎ (method ≡ "S256")) × (s256 verifier ≡ challenge))
        ⊎ ((method ≡ "plain") × (verifier ≡ challenge)))

module _ (s256 : String → String) (verifier challenge method : String) where
  Accepts-verify :
      verify s256 verifier challenge method ≡ none → Accepts s256 verifier challenge method
  unfolding verify or_text
  Accepts-verify h = ground (
    arith,
    eq_iff verifier "",
    eq_iff challenge "",
    eq_iff method "",
    eq_iff (or_text method "S256") "S256",
    eq_iff (or_text method "S256") "plain",
    eq_iff method "S256",
    eq_iff method "plain",
    eq_iff (s256 verifier) challenge,
    eq_iff verifier challenge,
    eq_iff "S256" "plain",
    eq_iff "plain" "",
  )

  verify-Accepts :
      Accepts s256 verifier challenge method → verify s256 verifier challenge method ≡ none
  unfolding verify or_text
  verify-Accepts h = ground (
    arith,
    eq_iff verifier "",
    eq_iff challenge "",
    eq_iff method "",
    eq_iff (or_text method "S256") "S256",
    eq_iff (or_text method "S256") "plain",
    eq_iff method "S256",
    eq_iff method "plain",
    eq_iff (s256 verifier) challenge,
    eq_iff verifier challenge,
    eq_iff "S256" "plain",
    eq_iff "plain" "",
  )

  -- A verifier is accepted exactly when it and the challenge are not empty, and either the method
  -- is S256, named or by default, and the verifier's digest is the challenge, or the method is
  -- plain and the verifier is the challenge.
  pub verify_iff :
      (verify s256 verifier challenge method ≡ none) ↔ Accepts s256 verifier challenge method
  verify_iff = (Accepts-verify, verify-Accepts)
