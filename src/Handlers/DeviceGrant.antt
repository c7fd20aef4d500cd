-- ===== src/Handlers/DeviceGrant.antt =====
-- handleDeviceCodeRequest, randomUserCode and handleDeviceAuthorize of
-- internal/handlers/handlers.go: where a device gets its codes, and where its user agrees.
use Prim.Native.String
use fake_auth.Base.{
  ℕ, zero, suc, pos, String, false, ◌||◌, Option, none, some, [], ◌∷◌, ◌==◌, if◌then◌else◌,
}
use fake_auth.Text.{or_text, concat}
use fake_auth.Dict.{text_at}
use fake_auth.Json.{str, int}
use fake_auth.Web.{Request, query_value, form_value}
use fake_auth.Database
use fake_auth.Grants.{DeviceCode, save_device_code, authorize_device_code, deny_device_code}
use fake_auth.Handlers.{Env, Draws, Config, State, Response, send_json, plain_text, page, base_url}
use fake_auth.Handlers.Endpoint.{parse_token_params}
use fake_auth.Handlers.SignIn.{password_holder}

abbrev pub chars : String
chars = "ABCDEFGHJKLMNPQRSTUVWXYZ23456789"

-- s[n], as a text
letter : String → ℕ → String
letter String.[] n = ""
letter (String.◌∷◌ c s) zero = String.◌∷◌ c ""
letter (String.◌∷◌ c s) (suc n) = letter s n

-- `digit` are the numbers below 32 that crypto/rand yields.
unfoldable pub random_user_code : (ℕ → ℕ) → String
unfolding letter concat
random_user_code digit =
    let at : ℕ → String = λ n. letter chars (digit n) in
    concat (at 0 ∷ at 1 ∷ at 2 ∷ at 3 ∷ "-" ∷ at 4 ∷ at 5 ∷ at 6 ∷ at 7 ∷ [])

-- What is stored for a device; SaveDeviceCode sets the expiry and the interval.
unfoldable pub requested : String → String → String → String → String → DeviceCode
unfolding or_text
requested device_code user_code client_id scope audience = record {
  device_code = device_code;
  user_code = user_code;
  user_id = "";
  client_id = or_text client_id "e2e-test";
  scope = or_text scope "openid";
  audience = audience;
  expires_at = 0;
  interval = 0;
  user_authorized = false;
  access_denied = false;
  expired = false;
}

-- The codes that a request draws.
abbrev pub device_code_of : Draws → String
device_code_of draws = String.◌++◌ "dc_" (draws.uuid 0)

unfoldable pub handle_device_code_request :
    Config → Env → Draws → State → Request → State × Response
unfolding random_user_code requested base_url
handle_device_code_request cfg env draws s r =
    let p = parse_token_params r in
    let device_code = device_code_of draws in
    let user_code = random_user_code draws.digit in
    let uri = String.◌++◌ (base_url cfg) "/oauth/device/authorize" in
    let dc =
      requested device_code user_code (text_at p "client_id") (text_at p "scope")
        (text_at p "audience") in
    (
      elim s.grant_store [
        | none ↦ s
        | some g ↦ record s {
          grant_store = some (
              save_device_code env.upper (draws.clock 0) (draws.clock 1) device_code user_code dc
                g);
        }
      ],
      send_json 200 (
          ("device_code", str device_code)
          ∷ ("user_code", str user_code)
          ∷ ("verification_uri", str uri)
          ∷ (
            "verification_uri_complete",
            str (String.◌++◌ uri (String.◌++◌ "?user_code=" (env.library.query_escape user_code))),
          )
          ∷ ("expires_in", int (pos 900))
          ∷ ("interval", int (pos 5))
          ∷ []),
    )

abbrev body_page : String → String
body_page source = String.◌++◌ "<!DOCTYPE html><html><body>" (String.◌++◌ source "</body></html>")

-- The refusal of a user code.
deny : Env → String → State → State
deny env user_code s = elim s.grant_store [
  | none ↦ s
  | some g ↦ record s { grant_store = some (deny_device_code env.upper user_code g).0 }
]

-- The consent of a user who gave the right password.
consent : Env → Draws → String → State → Option Database.User → State × Response
unfolding concat
consent env draws user_code s none = (
  s,
  page 200 (
      body_page (
        concat (
          "<p>Invalid credentials.</p><a href=\"?user_code="
          ∷ env.library.html_escape user_code
          ∷ "\">Try again</a>"
          ∷ []))),
)
consent env draws user_code s (some u) = (
  elim s.grant_store [
    | none ↦ s
    | some g ↦ record s {
      grant_store = some (authorize_device_code env.upper (draws.clock 0) user_code u.id g).0;
    }
  ],
  page 200 (body_page "<p>Device authorized. You can close this page.</p>"),
)

unfoldable pub post_device :
    Env → Draws → State → String → String → String → String → State × Response
unfolding deny consent
post_device env draws s user_code action username password =
    if action == "deny"
    then (deny env user_code s, page 200 (body_page "<p>Access denied.</p>"))
    else if username == "" || password == ""
    then (s, plain_text 400 "username and password required")
    else consent env draws user_code s (password_holder env draws s.db username password)

device_form : Env → String → String
unfolding concat
device_form env user_code =
    let shown = env.library.html_escape user_code in
    concat (
      "<!DOCTYPE html><html><head><title>Device Authorization</title></head><body>\n<p>Enter code: <strong>"
      ∷ shown ∷ "</strong></p>\n<form method=\"post\" action=\"?user_code=" ∷ shown
      ∷ "\">\n<input type=\"hidden\" name=\"user_code\" value=\"" ∷ shown
      ∷ "\">\n<label>Email: <input type=\"text\" name=\"username\"></label><br>\n<label>Password: <input type=\"password\" name=\"password\"></label><br>\n<button type=\"submit\" name=\"action\" value=\"allow\">Authorize</button>\n<button type=\"submit\" name=\"action\" value=\"deny\">Deny</button>\n</form></body></html>"
      ∷ [])

unfoldable pub handle_device_authorize : Env → Draws → State → Request → State × Response
unfolding post_device query_value form_value device_form or_text
handle_device_authorize env draws s r =
    let user_code = or_text (query_value r "user_code") (form_value r "user_code") in
    if user_code == ""
    then (s, page 400 (body_page "<p>user_code is required</p>"))
    else if r.method == "POST"
    then post_device env draws s user_code (form_value r "action") (form_value r "username")
        (form_value r "password")
    else (s, page 200 (device_form env user_code))
