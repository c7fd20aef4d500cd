-- ===== src/Handlers/SignIn/Redirect.antt =====
-- The redirect with a code of handleAuthorize and handleLogin, internal/handlers/handlers.go.
use Prim.Native.String
use fake_auth.Base.{
  String, ◌≡◌, refl, ◌∙◌, not, ◌&&◌, ◌==◌, if◌then◌else◌, some, [], ◌∷◌, Bool-cases, inl, inr,
}
use fake_auth.Dict.{get, get-put}
use fake_auth.Web.{Values, set_value}
use fake_auth.Handlers.{Url, Env, Draws, Response, redirect}
use fake_auth.Handlers.SignIn.{
  Parameters, new_code, with_code, set_state, set_all, query_with, url_with,
}

-- The response redirects to the URL, whose query keeps its values, but for the code and, where one
-- was sent, the state, which it now carries.
pub record Redirects (env : Env) (url : Url) (code state : String) (r : Response) : Type 0 where
  pub values : Values
  pub status : r.status ≡ 302
  pub located :
      r.body ≡ redirect (env.url_string (record url { raw_query = env.library.encode values }))
  pub query :
      (k : String)
      → get values k ≡ (
          if not (state == "") && "state" == k
          then some (state ∷ [])
          else if "code" == k
          then some (code ∷ [])
          else get (env.library.parse_query url.raw_query) k)

get-set_state :
    (state : String) (v : Values) (k : String)
    → get (set_state state v) k
      ≡ (if not (state == "") && "state" == k then some (state ∷ []) else get v k)
get-set_state state v k = elim (Bool-cases (state == "")) [
  | inl empty ↦ rw empty refl
  | inr given ↦ rw given (get-put v "state" k (state ∷ []))
]

pub with_code-Redirects :
    (env : Env) (draws : Draws) (url : Url) (p : Parameters)
    → Redirects env url (String.◌++◌ "ac_" (draws.uuid 0)) p.state (with_code env draws url p)
unfolding with_code query_with url_with set_all
with_code-Redirects env draws url p =
    let given = env.library.parse_query url.raw_query in
    let coded = set_value given "code" (new_code draws) in
    record {
      values = set_state p.state coded;
      status = refl;
      located = refl;
      query = λ k.
          get-set_state p.state coded k ∙ rw (get-put given "code" k (new_code draws ∷ [])) refl;
    }
