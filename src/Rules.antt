-- ===== src/Rules.antt =====
-- internal/rules/runner.go: user-written scripts that change the user before tokens are issued. The
-- scripts run in the goja interpreter, which is a parameter, as is the rules directory.
pub mod Laws
use Prim.Native.String
use fake_auth.Base.{
  String, Char, Bool, true, false, ◌||◌, not, Option, none, some, List, [], ◌∷◌, ◌==◌,
  if◌then◌else◌, or_else,
}
use fake_auth.Text.{strip, has_suffix, or_text}
use fake_auth.Dict.{Dict, get, put}
use fake_auth.Json.{Value, str, bool, obj, of_dict, to_dict, as_string, as_bool, as_object}

-- `none` is a nil map.
pub record User : Type 0 where
  pub user_id : String
  pub email : String
  pub email_verified : Bool
  pub name : String
  pub nickname : String
  pub user_metadata : Option (Dict Value)
  pub app_metadata : Option (Dict Value)
  pub id_token_claims : Option (Dict Value)
  pub access_token_claims : Option (Dict Value)

pub record Context : Type 0 where
  pub client_id : String
  pub client_name : String
  pub connection : String
  pub protocol : String
  pub redirect_uri : String

-- An entry of the rules directory; `none` is a file that cannot be read.
pub record Entry : Type 0 where
  pub name : String
  pub is_dir : Bool
  pub text : Option String

-- How a script ends: with an error, or having handed the callback an object as its second argument,
-- the last one counting, or none.
pub data Ran : Type 0 where
  threw : String → Ran
  finished : Option (Dict Value) → Ran

-- The rules directory, `none` where it cannot be listed; the interpreter, on a program over `user`
-- and `context`; and strings.TrimSpace.
pub record Runner : Type 0 where
  pub dir : String
  pub read_dir : Option (List Entry)
  pub run_string : String → Dict Value → Dict Value → Ran
  pub trim_space : String → String

abbrev map_or_empty : Option (Dict Value) → Value
map_or_empty m = obj (of_dict (or_else m []))

unfoldable pub user_to_map : User → Dict Value
user_to_map u =
    put
      (put
        (put
          (put
            (put
              (put
                (put (put (put [] "user_id" (str u.user_id)) "email" (str u.email)) "email_verified"
                  (bool u.email_verified))
                "name" (str u.name))
              "nickname" (str u.nickname))
            "user_metadata" (map_or_empty u.user_metadata))
          "app_metadata" (map_or_empty u.app_metadata))
        "id_token_claims" (map_or_empty u.id_token_claims))
      "access_token_claims" (map_or_empty u.access_token_claims)

unfoldable pub context_to_map : Context → Dict Value
context_to_map c =
    put
      (put
        (put (put (put [] "clientID" (str c.client_id)) "clientName" (str c.client_name))
          "connection" (str c.connection))
        "protocol" (str c.protocol))
      "redirect_uri" (str c.redirect_uri)

unfoldable pub map_to_user : Dict Value → User
map_to_user m = record {
  user_id = or_else (as_string (get m "user_id")) "";
  email = or_else (as_string (get m "email")) "";
  email_verified = or_else (as_bool (get m "email_verified")) false;
  name = or_else (as_string (get m "name")) "";
  nickname = or_else (as_string (get m "nickname")) "";
  user_metadata = as_object (get m "user_metadata");
  app_metadata = as_object (get m "app_metadata");
  id_token_claims = as_object (get m "id_token_claims");
  access_token_claims = as_object (get m "access_token_claims");
}

-- `len(trimmed) > 8 && trimmed[:8] == "function"`: the word, and more behind it.
is_function : Option String → Bool
is_function none = false
is_function (some behind) = not (behind == "")

-- The program that the interpreter is given.
unfoldable pub program : Runner → String → String
unfolding is_function strip
program r script =
    if is_function (strip "function" (r.trim_space script))
    then String.◌++◌ "(" (String.◌++◌ script ")(user, context, callback);")
    else String.◌++◌ "(function(u,c,cb){ " (String.◌++◌ script " })(user,context,callback);")

-- The user that goes on, and the error.
ended : User → Ran → User × Option String
unfolding map_to_user
ended user (threw e) = (user, some e)
ended user (finished none) = (user, none)
ended user (finished (some m)) = (map_to_user m, none)

unfoldable pub run_rule : Runner → String → User → Context → User × Option String
unfolding program ended user_to_map context_to_map
run_rule r script user ctx =
    ended user (r.run_string (program r script) (user_to_map user) (context_to_map ctx))

-- The script of an entry that the loop does not pass over.
script_of : Entry → Option String
unfolding has_suffix
script_of e = if e.is_dir || not (has_suffix e.name ".js") then none else e.text

-- The loop of Run; an error ends it.
unfoldable pub run_entries : Runner → List Entry → User → Context → User × Option String
unfolding script_of run_rule
run_entries r [] user ctx = (user, none)
run_entries r (e ∷ es) user ctx = elim (script_of e) [
  | none ↦ run_entries r es user ctx
  | some script ↦
      let (next, failed) = run_rule r script user ctx in
      elim failed [
        | none ↦ run_entries r es next ctx
        | some err ↦ (next, some (String.◌++◌ "rule " (String.◌++◌ e.name (String.◌++◌ ": " err))))
      ]
]

listed : Runner → Option (List Entry) → User → Context → User × Option String
unfolding run_entries
listed r none user ctx = (user, none)
listed r (some es) user ctx = run_entries r es user ctx

-- A nil runner is `none`.
unfoldable pub run : Option Runner → User → Context → User × Option String
unfolding listed
run none user ctx = (user, none)
run (some r) user ctx = if r.dir == "" then (user, none) else listed r r.read_dir user ctx

unfoldable pub to_store_format : User → String × String × String
unfolding or_text
to_store_format u = (u.user_id, u.email, or_text (or_text u.name u.nickname) u.email)
