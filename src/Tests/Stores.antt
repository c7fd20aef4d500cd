-- ===== src/Tests/Stores.antt =====
-- The stores of grants and of sessions, PKCE and the client registry.
use fake_auth.Base.{
  ◌≡◌, refl, ◌≢◌, inr, ◌↔◌, arith, eq_iff, String, Char, Bool, true, false, none, some, All, [],
  ◌∷◌, List,
}
use fake_auth.Text.{fields, to_upper, remove_hyphens}
use fake_auth.Dict.{Dict, get}
use fake_auth.Pkce
use fake_auth.Pkce.Laws.{Accepts, verify_iff}
use fake_auth.Clients.{lookup, validate_redirect_uri, validate_scope}
use fake_auth.Clients.Laws.{Listed, validate_redirect_uri_iff, validate_scope_iff}
use fake_auth.Grants
use fake_auth.Grants.{
  AuthCode, DeviceCode, consume_code, consume_refresh_token, revoke_refresh_token, save_code,
  save_device_code, authorize_device_code, consume_device_code, normalize,
}
use fake_auth.Grants.History
use fake_auth.Grants.History.{
  consumes_code, saves_code, saves_refresh, authorizes, denies, code_single_use, refresh_single_use,
  revoked_stays_revoked,
}
use fake_auth.Grants.Device.{device_flow}
use fake_auth.Grants.Device.Trust.{Holds, denial_is_final, consumed_user}
use fake_auth.Grants.UserCode.{IsUpper}
use fake_auth.Sessions.{create, get_session}
use fake_auth.Sessions.Expiry.{get_session-create}
use fake_auth.Sessions.Invariant
use fake_auth.Sessions.Invariant.{creates, gets, Owned, run-Owned}
use fake_auth.Tests.Fixtures.{
  grants, code_grant, refresh_grant, device, ready, env, registry, sessions, app, same_char,
}

-- Other codes are saved and consumed in between.
abbrev code_calls : List History.Call
code_calls = saves_code 10 10 "c2" code_grant ∷ consumes_code 20 "c2" ∷ []

abbrev c1 : String
c1 = "c1"

abbrev c2 : String
c2 = "c2"

c2_apart : c2 ≢ c1
c2_apart = ground (arith, eq_iff c2 c1)

code_single_use_example :
    (consume_code 30 "c1" (History.run same_char (consume_code 5 "c1" grants).0 code_calls)).1
    ≡ none
code_single_use_example = code_single_use same_char "c1" 5 30 grants code_calls (c2_apart, (tt, tt))

abbrev rt_1 : String
rt_1 = "rt_1"

abbrev rt_2 : String
rt_2 = "rt_2"

rt_2_apart : rt_2 ≢ rt_1
rt_2_apart = ground (arith, eq_iff rt_2 rt_1)

abbrev refresh_calls : List History.Call
refresh_calls = saves_refresh 10 10 rt_2 refresh_grant ∷ []

refresh_single_use_example :
    (consume_refresh_token 30 "rt_1"
      (History.run same_char (consume_refresh_token 5 "rt_1" grants).0 refresh_calls)).1
    ≡ none
refresh_single_use_example =
    refresh_single_use same_char "rt_1" 5 30 grants refresh_calls (rt_2_apart, tt)

revoked_stays_revoked_example :
    (consume_refresh_token 30 "rt_1"
      (History.run same_char (revoke_refresh_token "rt_1" grants).0 refresh_calls)).1
    ≡ none
revoked_stays_revoked_example =
    revoked_stays_revoked same_char "rt_1" 30 grants refresh_calls (rt_2_apart, tt)

device_flow_example :
    let pending = save_device_code same_char 10 10 "dc_2" "WXYZ-2345" device grants in
    let approved = authorize_device_code same_char 20 "WXYZ-2345" "u1" pending in
    (approved.1 ≡ true)
    × ((consume_device_code same_char 30 "dc_2" approved.0).1
        ≡ some (record device {
          expires_at = 100;
          interval = 5;
          user_authorized = true;
          user_id = "u1";
        }))
device_flow_example =
    device_flow same_char 10 10 20 30 "dc_2" "WXYZ-2345" "u1" device grants refl (omega arith)
      (omega arith)

ready_consumed : (consume_device_code same_char 60 "dc_1" grants).1 ≡ some ready
unfolding consume_device_code get
ready_consumed = refl

-- The user denies, and then approves.
abbrev device_calls : List History.Call
device_calls = denies "ABCD-EFGH" ∷ authorizes 20 "ABCD-EFGH" "u1" ∷ []

abbrev denied : Grants.Store
denied = record grants { devices = ("dc_1", record ready { access_denied = true }) ∷ [] }

denied_first : Holds (λ dc. dc.access_denied ≡ true) (get denied.devices "dc_1")
unfolding get
denied_first = refl

denial_is_final_example :
    Holds
      (λ dc. dc.access_denied ≡ true)
      (get (History.run same_char denied device_calls).devices "dc_1")
denial_is_final_example =
    denial_is_final same_char "dc_1" denied device_calls ((λ dc h. refl), ((λ dc h. h), tt))
      denied_first

-- Only the first user approves.
abbrev FirstUser : String → Type 0
FirstUser u = u ≡ "u1"

pending_first :
    Holds (λ d. d.user_authorized ≡ true → FirstUser d.user_id) (get grants.devices "dc_1")
unfolding get
pending_first = λ h. refl

approved_consumed :
    (consume_device_code same_char 30 "dc_1"
      (History.run same_char grants (authorizes 20 "ABCD-EFGH" "u1" ∷ []))).1
    ≡ some ready
unfolding consume_device_code History.run get History.step authorize_device_code to_upper
    remove_hyphens fake_auth.Dict.put
approved_consumed = refl

consumed_user_example : FirstUser ready.user_id
consumed_user_example =
    consumed_user same_char FirstUser "dc_1" grants (authorizes 20 "ABCD-EFGH" "u1" ∷ []) 30 ready
      ((λ dc h k. refl), tt) pending_first approved_consumed

same_char-IsUpper : IsUpper same_char
same_char-IsUpper = record { idem = λ c. refl; hyphen = λ c. refl }

verify_iff_example :
    (Pkce.verify env.s256 "verifier" "s256-verifier" "" ≡ none)
    ↔ Accepts env.s256 "verifier" "s256-verifier" ""
verify_iff_example = verify_iff env.s256 "verifier" "s256-verifier" ""

app_found : lookup registry "app" ≡ some app
unfolding lookup get
app_found = refl

lists_uris : app.redirect_uris ≢ []
lists_uris h = cc h

lists_scopes : app.allowed_scopes ≢ []
lists_scopes h = cc h

validate_redirect_uri_iff_example :
    (validate_redirect_uri registry "app" "https://app.test/cb" ≡ true)
    ↔ Listed "https://app.test/cb" app.redirect_uris
validate_redirect_uri_iff_example =
    validate_redirect_uri_iff registry "app" "https://app.test/cb" app app_found lists_uris

abbrev secret : String
secret = "s3cret"

abbrev is_space : Char → Bool
is_space c = false

validate_scope_iff_example :
    (validate_scope is_space registry "app" "openid" ≡ true)
    ↔ All (λ s. Listed s app.allowed_scopes) (fields is_space "openid")
validate_scope_iff_example =
    validate_scope_iff is_space registry "app" "openid" app app_found lists_scopes

abbrev raw : String
raw = "{\"app\":{}}"

get_session-create_example :
    let made = create (some "ab") 10 10 "u1" "ann@test" sessions in
    (made.1 ≡ some "sid_ab")
    × ((get_session 20 20 20 "sid_ab" made.0).1
        ≡ some
            (record { session_id = "sid_ab"; user_id = "u1"; email = "ann@test"; expires_at = 60 }))
get_session-create_example =
    get_session-create "ab" "u1" "ann@test" 10 10 20 20 20 sessions (omega arith) (omega arith)

abbrev session_calls : List Invariant.Call
session_calls = creates (some "ab") 10 10 "u1" "ann@test" ∷ gets 20 20 20 "sid_ab" ∷ []

run-Owned_example :
    Owned "sid_ab" "u1" (get (Invariant.run sessions session_calls).sessions "sid_ab")
unfolding get
run-Owned_example = run-Owned "sid_ab" "u1" sessions session_calls (inr refl, (tt, tt)) tt
