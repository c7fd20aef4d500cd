-- ===== src/Web.antt =====
-- What the handlers use of the Go library around a request: net/http's request, net/url's values,
-- and encoding/json on the bodies that internal/handlers/handlers.go declares.
use fake_auth.Base.{
  ℕ, ℤ, Char, String, Bool, Option, none, some, List, [], ◌∷◌, ◌==◌, if◌then◌else◌,
}
use fake_auth.Dict.{Dict, get, put}
use fake_auth.Json.{Value}

-- url.Values
abbrev pub Values : Type 0
Values = Dict (List String)

-- The first value of a list, or the empty text.
abbrev pub first : Option (List String) → String
first none = ""
first (some []) = ""
first (some (v ∷ vs)) = v

-- v.Get(k)
unfoldable pub value_of : Values → String → String
value_of v k = first (get v k)

-- v.Set(k, x)
abbrev pub set_value : Values → String → String → Values
set_value v k x = put v k (x ∷ [])

-- A request as net/http and encoding/json read it: `query` is r.URL.Query(), `form` is r.Form
-- after ParseForm, `cookie` the value of the session cookie, and `json_body` the body as a JSON
-- object, `none` where it is none.
pub record Request : Type 0 where
  pub method : String
  pub path : String
  pub query : Values
  pub form : Values
  pub cookie : Option String
  pub authorization : String
  pub content_type : String
  pub body : String
  pub json_body : Option (Dict Value)

unfoldable pub query_value : Request → String → String
unfolding value_of
query_value r k = value_of r.query k

unfoldable pub form_value : Request → String → String
unfolding value_of
form_value r k = value_of r.form k

-- getParam
unfoldable pub get_param : Request → String → String
unfolding query_value form_value
get_param r k = let v = query_value r k in if v == "" then form_value r k else v

-- The bodies of handleSignup, handleCreateUserMgmt, handleCreateRole and handlePatchRole.
pub record SignupBody : Type 0 where
  pub email : String
  pub password : String
  pub connection : String
  pub user_metadata : Option (Dict Value)

pub record UserBody : Type 0 where
  pub connection : String
  pub email : String
  pub password : String
  pub name : String
  pub user_id : String
  pub user_metadata : Option (Dict Value)
  pub app_metadata : Option (Dict Value)

pub record RoleBody : Type 0 where
  pub name : String
  pub description : String

-- Functions of the library; the decoders yield `none` for an error.
pub record Library : Type 0 where
  -- url.ParseQuery as URL.Query calls it, Values.Encode, url.QueryEscape
  pub parse_query : String → Values
  pub encode : Values → String
  pub query_escape : String → String
  -- html.EscapeString
  pub html_escape : String → String
  -- strconv.Itoa, and strconv.Atoi with its error dropped
  pub itoa : ℕ → String
  pub atoi : String → ℤ
  -- strings.TrimSpace and unicode.IsSpace
  pub trim_space : String → String
  pub space : Char → Bool
  -- int(v) of a float64, by its decimal text
  pub truncate : String → ℤ
  pub decode_signup : String → Option SignupBody
  pub decode_user : String → Option UserBody
  pub decode_role : String → Option RoleBody
