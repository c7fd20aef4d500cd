-- ===== src/Pkce.antt =====
-- internal/pkce/pkce.go: proof keys for code exchange (RFC 7636).
pub mod Laws
use fake_auth.Base.{
  String, ◌≡◌, Bool, true, false, ◌||◌, ◌&&◌, not, Option, none, some, ◌==◌, if◌then◌else◌,
}
use fake_auth.Text.{or_text}

-- `s256` is the unpadded base64url text of the SHA-256 digest (crypto/sha256, encoding/base64).
unfoldable pub verify_s256 : (String → String) → String → String → Bool
verify_s256 s256 verifier challenge =
    if verifier == "" || challenge == "" then false else s256 verifier == challenge

unfoldable pub verify_plain : String → String → Bool
verify_plain verifier challenge = not (verifier == "") && verifier == challenge

-- `none` is a nil error.
unfoldable pub verify : (String → String) → String → String → String → Option String
unfolding verify_s256 verify_plain or_text
verify s256 verifier challenge given =
    let method = or_text given "S256" in
    if verifier == ""
    then some "missing code_verifier"
    else if challenge == ""
    then some "missing code_challenge"
    else if method == "S256"
    then (if not (verify_s256 s256 verifier challenge)
        then some "invalid code_verifier for S256 challenge"
        else none)
    else if method == "plain"
    then (if not (verify_plain verifier challenge)
        then some "invalid code_verifier for plain challenge"
        else none)
    else some "unsupported code_challenge_method"
