-- ===== src/Handlers/Issuing.antt =====
-- The steps that the grants share: the rules, the merged claims, and the response with its tokens
-- (handlePasswordGrant, handleAuthorizationCode, handleDeviceCodeToken, handleRefreshToken,
-- mergeClaims).
use fake_auth.Base.{ℕ, pos, String, ◌≡◌, true, Option, none, some, [], or_else, ap, ◌∙◌}
use fake_auth.Text.{or_text}
use fake_auth.Dict.{Dict, get, put}
use fake_auth.Dict.Range.{copy, get-copy, first_of, first_of-none}
use fake_auth.Json.{Value, str, int}
use fake_auth.Database
use fake_auth.Rules
use fake_auth.Handlers.{Config}

-- Later maps win: mergeClaims(base, custom).
unfoldable pub merge_claims : Option (Dict Value) → Option (Dict Value) → Dict Value
unfolding copy
merge_claims base custom = copy (or_else custom []) (copy (or_else base []) [])

-- The extra claims of the configuration override those of the rules, and there are no others.
pub get-merge_claims :
    (base custom : Option (Dict Value)) (k : String)
    → get (merge_claims base custom) k
      ≡ first_of (get (or_else custom []) k) (get (or_else base []) k)
unfolding merge_claims get
get-merge_claims base custom k =
    get-copy (or_else custom []) _ k
    ∙ ap (first_of (get (or_else custom []) k))
        (get-copy (or_else base []) [] k ∙ first_of-none (get (or_else base []) k))

-- The user that the rules are given, and what they make of it; their error is dropped.
unfoldable pub rule_user : Config → Database.User → String → Rules.User
rule_user cfg u client_id =
    (Rules.run cfg.rules_runner
      (record {
        user_id = u.id;
        email = u.email;
        email_verified = true;
        name = u.display_name;
        nickname = u.display_name;
        user_metadata = none;
        app_metadata = none;
        id_token_claims = none;
        access_token_claims = none;
      })
      (record {
        client_id = client_id;
        client_name = "";
        connection = "Username-Password-Authentication";
        protocol = "oidc-basic-profile";
        redirect_uri = "";
      })).0

unfoldable pub shown_name : Rules.User → String
unfolding or_text
shown_name u = or_text (or_text u.name u.nickname) u.email

-- The response before the optional tokens.
unfoldable pub bearer : ℕ → String → Dict Value
bearer lifetime access_token =
    put (put (put [] "access_token" (str access_token)) "token_type" (str "Bearer")) "expires_in"
      (int (pos lifetime))

-- `if err == nil { resp["id_token"] = idTok }`
unfoldable pub put_token : String → Option String → Dict Value → Dict Value
put_token k none resp = resp
put_token k (some token) resp = put resp k (str token)
