-- ===== src/Token.antt =====
-- internal/token/jwt.go: the claims of access and ID tokens, and the check of a presented token.
-- Signing and verifying are github.com/golang-jwt/jwt's, at the issuer's key. Instants are
-- nanoseconds since the Unix epoch.
pub mod Access
pub mod Identity
pub mod Validation
use Prim.Native.Nat.{◌/◌}
use Prim.Native.String
use Prim.Native.String.{◌∷◌}
use mathlib.Core.List
use fake_auth.Base.{
  ℕ, ◌+◌, ◌*◌, ℤ, pos, code, String, Bool, true, false, not, ◌&&◌, ◌||◌, Option, none, some, List,
  ◌==◌, same, positive_or, if◌then◌else◌, is_some,
}
use fake_auth.Text.{contains, trim_suffix, or_text}
use fake_auth.Dict.{Dict, get, put}
use fake_auth.Dict.Range.{copy}
use fake_auth.Json.{
  Value, bool, int, str, arr, obj, end, field, cons, nil, strings, string_or_empty,
}

-- A parse error with its text, or the claims with `tok.Valid`.
pub data Parsed : Type 0 where
  failed : String → Parsed
  parsed : Dict Value → Bool → Parsed

-- The claims, or the text of the error.
pub data Checked : Type 0 where
  accepted : Dict Value → Checked
  refused : String → Checked

-- What the program uses of the JWT library and of crypto/sha256.
pub record Jwt : Type 0 where
  -- `t.SignedString(i.key)` of RS256 claims under a key id; `none` is an error.
  pub sign : String → Dict Value → Option String
  -- `jwt.Parse` with the issuer's public key, at an instant: it looks at the expiry
  pub parse : ℕ → String → Parsed
  -- unpadded base64url of the first 16 bytes of the SHA-256 digest
  pub left_half_hash : String → String
  -- the unpadded base64url texts of the public key's modulus and exponent
  pub modulus : String
  pub exponent : String

pub record Issuer : Type 0 where
  pub issuer : String
  pub kid : String

pub record IdTokenOptions : Type 0 where
  pub nonce : String
  pub amr : List String
  pub access_token : String
  pub auth_code : String
  pub session_id : String
  pub custom_claims : Dict Value

abbrev pub second : ℕ
second = 1000000000

-- time.Time.Unix
unfoldable pub unix : ℕ → ℕ
unix t = t / second

-- `if s != "" { claims[k] = v }`
unfoldable pub put_unless_empty : String → String → Value → Dict Value → Dict Value
put_unless_empty s k v claims = if s == "" then claims else put claims k v

unfoldable pub standard_claims : Issuer → ℕ → String → String → ℕ → Dict Value
unfolding unix
standard_claims i now sub aud lifetime =
    put
      (put (put (put (put List.[] "sub" (str sub)) "iss" (str i.issuer)) "aud" (str aud)) "exp"
        (int (pos (unix (now + lifetime * second)))))
      "iat" (int (pos (unix now)))

-- The claims of an access token.
unfoldable pub access_claims : Issuer → ℕ → String → String → String → ℤ → Dict Value → Dict Value
unfolding standard_claims put_unless_empty
access_claims i now sub aud client_id expires_in custom_claims =
    let lifetime = positive_or expires_in 3600 in
    let claims = standard_claims i now sub aud lifetime in
    copy custom_claims (put_unless_empty client_id "azp" (str client_id) claims)

unfoldable pub issue : Jwt → Issuer → ℕ → String → String → String → ℤ → Dict Value → Option String
unfolding access_claims
issue jwt i now sub aud client_id expires_in custom_claims =
    jwt.sign i.kid (access_claims i now sub aud client_id expires_in custom_claims)

-- `if len(opts.AMR) > 0 { claims["amr"] = opts.AMR }`
unfoldable pub put_amr : List String → Dict Value → Dict Value
put_amr List.[] claims = claims
put_amr (List.◌∷◌ a more) claims = put claims "amr" (arr (strings (List.◌∷◌ a more)))

-- The claims that the options add.
unfoldable pub add_options : Jwt → Option IdTokenOptions → Dict Value → Dict Value
unfolding put_unless_empty put_amr
add_options jwt none claims = claims
add_options jwt (some o) claims =
    let with_nonce = put_unless_empty o.nonce "nonce" (str o.nonce) claims in
    let with_amr = put_amr o.amr with_nonce in
    let with_at =
      put_unless_empty o.access_token "at_hash" (str (jwt.left_half_hash o.access_token))
        with_amr in
    let with_c =
      put_unless_empty o.auth_code "c_hash" (str (jwt.left_half_hash o.auth_code)) with_at in
    let with_sid = put_unless_empty o.session_id "sid" (str o.session_id) with_c in
    copy o.custom_claims with_sid

-- strings.SplitN(name, " ", 2): what stands before the first space, and what stands behind it, if
-- there is one.
unfoldable pub split_name : String → String × Option String
split_name String.[] = ("", none)
split_name (c ∷ s) =
    let (before, behind) = split_name s in
    if same (code c) b' ' then ("", some s) else (c ∷ before, behind)

put_if : Option String → String → Dict Value → Dict Value
put_if none k claims = claims
put_if (some s) k claims = put claims k (str s)

-- The claims about the user's name.
unfoldable pub add_name : String → String → Dict Value → Dict Value
unfolding put_if put_unless_empty split_name
add_name name picture claims =
    let (given, family) = split_name name in
    let named = put (put claims "name" (str name)) "given_name" (str given) in
    let nicked = put (put_if family "family_name" named) "nickname" (str name) in
    put_unless_empty picture "picture" (str picture) nicked

unfoldable pub add_email : String → Dict Value → Dict Value
add_email email claims = put (put claims "email" (str email)) "email_verified" (bool true)

-- The claims that the scope asks for.
unfoldable pub add_profile : String → String → String → String → Dict Value → Dict Value
unfolding or_text contains add_name add_email
add_profile given_scope email name picture claims =
    let scope = or_text given_scope "openid profile email" in
    let mailed =
      if contains scope "email" && not (email == "") then add_email email claims else claims in
    if (contains scope "profile" || contains scope "openid") && not (name == "")
    then add_name name picture mailed
    else mailed

unfoldable pub id_claims :
    Jwt
    → Issuer
    → ℕ
    → String
    → String
    → String
    → ℤ
    → String
    → String
    → String
    → String
    → Option IdTokenOptions
    → Dict Value
unfolding standard_claims put_unless_empty add_options add_profile unix
id_claims jwt i now sub aud client_id expires_in scope email name picture opts =
    let lifetime = positive_or expires_in 3600 in
    let claims = put (standard_claims i now sub aud lifetime) "auth_time" (int (pos (unix now))) in
    add_profile scope email name picture
      (add_options jwt opts (put_unless_empty client_id "azp" (str client_id) claims))

unfoldable pub issue_id_token :
    Jwt
    → Issuer
    → ℕ
    → String
    → String
    → String
    → ℤ
    → String
    → String
    → String
    → String
    → Option IdTokenOptions
    → Option String
unfolding id_claims
issue_id_token jwt i now sub aud client_id expires_in scope email name picture opts =
    jwt.sign i.kid (id_claims jwt i now sub aud client_id expires_in scope email name picture opts)

-- The issuer that a token names is this one, with or without a trailing slash.
unfoldable pub issuer_matches : Issuer → String → Bool
unfolding trim_suffix
issuer_matches i iss =
    let expected = trim_suffix i.issuer "/" in iss == expected || iss == String.◌++◌ expected "/"

accept : Issuer → Parsed → Checked
unfolding issuer_matches
accept i (failed text) = refused text
accept i (parsed claims false) = refused "invalid token"
accept i (parsed claims true) =
    if issuer_matches i (string_or_empty (get claims "iss"))
    then accepted claims
    else refused "invalid issuer"

unfoldable pub validate : Jwt → Issuer → ℕ → String → Checked
unfolding accept
validate jwt i now token = accept i (jwt.parse now token)

-- The key set that JWKS writes as JSON.
unfoldable pub jwks : Jwt → Issuer → Dict Value
jwks jwt i =
    let key = field "kty" (str "RSA") (
      field "use" (str "sig") (
        field "alg" (str "RS256") (
          field "kid" (str i.kid)
            (field "n" (str jwt.modulus) (field "e" (str jwt.exponent) end))))) in
    List.◌∷◌ ("keys", arr (cons (obj key) nil)) List.[]
