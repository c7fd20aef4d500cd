-- ===== src/Tests/Accounts.antt =====
-- Tokens, users and rules.
use fake_auth.Base.{
  ℕ, ◌*◌, ◌^◌, ◌<◌, ◌≡◌, refl, ◌≢◌, ◌⊎◌, inl, inr, arith, eq_iff, String, Bool, Bool-cases, same,
  ltb, if◌then◌else◌, true, false, Option, none, some, [], ◌∷◌, pos, ◌==◌,
}
use fake_auth.Dict.{Dict, get}
use fake_auth.Dict.Range.{first_of}
use fake_auth.Json.{Value, null, float, arr, obj, str, int, bool}
use fake_auth.Token.{
  Jwt, parsed, failed, second, accepted, IdTokenOptions, unix, id_claims, issue, validate,
}
use fake_auth.Token.Identity.{id_token_binds}
use fake_auth.Token.Validation.{validate-issue, ReadsIssuer}
use fake_auth.Database.{
  User, found, missing, get_by_email, get_by_id, create_user, delete_user, is_user_blocked,
}
use fake_auth.Database.Users.{read_back, get-create_user, create_user_taken, IsConsistent}
use fake_auth.Database.Removal.{delete_user_lem}
use fake_auth.Table.{exists}
use fake_auth.Rules
use fake_auth.Rules.{user_to_map, map_to_user}
use fake_auth.Tests.Fixtures.{text_of, jwt, issuer, engine, bcrypt, codec, ann, db, empty_db}

-- A library that signs tokens of one minute and reads them until then.
abbrev is_minute : Option Value → Bool
is_minute (some (int (pos n))) = same n 60
is_minute _ = false

abbrev minute_jwt : Jwt
minute_jwt = record jwt {
  sign = λ kid claims. if is_minute (get claims "exp") then text_of (get claims "iss") else none;
  parse = λ now token.
      if ltb now (60 * second)
      then parsed (("iss", str token) ∷ []) true
      else failed "token has invalid claims: token is expired";
}

text_of-some : (o : Option Value) (s : String) → text_of o ≡ some s → some (str s) ≡ o
text_of-some none s h = absurd (cc h)
text_of-some (some null) s h = absurd (cc h)
text_of-some (some (bool b)) s h = absurd (cc h)
text_of-some (some (int n)) s h = absurd (cc h)
text_of-some (some (float x)) s h = absurd (cc h)
text_of-some (some (str t)) s h = cc h
text_of-some (some (arr xs)) s h = absurd (cc h)
text_of-some (some (obj m)) s h = absurd (cc h)

-- A token that is signed and in its term is read.
minute_reads :
    (now : ℕ) (exp iss : Option Value) (token : String)
    → (if is_minute exp then text_of iss else none) ≡ some token
    → (exp ≡ none) ⊎ ((t : ℕ) × (exp ≡ some (int (pos t))) × (t < 2 ^ 53) × (now < t * second))
    → (ltb now (60 * second) ≡ true) × (some (str token) ≡ iss)
minute_reads now exp iss token made (inl e) = absurd (cc (rw e at made))
minute_reads now exp iss token made (inr (t, e, exact, early)) = elim (Bool-cases (same t 60)) [
  | inl hit ↦ (ground arith, text_of-some iss token (rw hit at rw e at made))
  | inr miss ↦ absurd (cc (rw miss at rw e at made))
]

minute_jwt-ReadsIssuer : ReadsIssuer minute_jwt
unfolding get
minute_jwt-ReadsIssuer kid token signed now made (term, start) =
    let (early, kept) = minute_reads now (get signed "exp") (get signed "iss") token made term in
    (("iss", str token) ∷ [], rw early refl, kept)

signed : issue minute_jwt issuer 5 "u1" "api" "app" (pos 60) [] ≡ some issuer.issuer
unfolding issue get fake_auth.Dict.Range.copy fake_auth.Dict.put
signed = refl

validate-issue_example :
    (c : Dict Value) × (validate minute_jwt issuer 7000000000 "https://auth.test/" ≡ accepted c)
unfolding get fake_auth.Token.unix
validate-issue_example =
    validate-issue minute_jwt issuer 5 7000000000 "u1" "api" "app" (pos 60) [] "https://auth.test/"
      minute_jwt-ReadsIssuer signed refl refl refl (omega arith) (omega arith)

abbrev options : IdTokenOptions
options = record {
  nonce = "n";
  amr = "pwd" ∷ [];
  access_token = "t";
  auth_code = "";
  session_id = "sid_1";
  custom_claims = [];
}

abbrev id_token : Dict Value
id_token =
    id_claims jwt issuer 5000000000 "u1" "api" "app" (pos 60) "openid email" "ann@test" "Ann A" ""
      (some options)

id_token_binds_example :
    (get id_token "sub" ≡ some (str "u1"))
    × (get id_token "iss" ≡ some (str "https://auth.test/"))
    × (get id_token "aud" ≡ some (str "api"))
    × (get id_token "iat" ≡ some (int (pos 5)))
    × (get id_token "exp" ≡ some (int (pos 65)))
    × (get id_token "nonce" ≡ some (str "n"))
    × (get id_token "sid" ≡ some (str "sid_1"))
    × (get id_token "at_hash" ≡ some (str "half-t"))
    × (get id_token "c_hash" ≡ none)
unfolding unix get
id_token_binds_example =
    id_token_binds jwt issuer 5000000000 "u1" "api" "app" (pos 60) "openid email" "ann@test" "Ann A"
      "" options (refl, (refl, (refl, (refl, (refl, (refl, (refl, (refl, (refl, tt)))))))))

get-create_user_example :
    let after = (create_user engine bcrypt codec ann "pw" empty_db).0 in
    (get_by_email engine codec after "ann@test" ≡ found (read_back ann "h-pw"))
    × (get_by_id engine codec after "u1" ≡ found (read_back ann "h-pw"))
unfolding exists
get-create_user_example =
    get-create_user engine engine bcrypt codec ann "pw" "h-pw" empty_db refl refl refl refl refl
      (refl, refl)

taken : exists (λ r. r.id == "u1") db.users ≡ true
unfolding exists
taken = refl

create_user_taken_example :
    ((create_user engine bcrypt codec ann "pw" db).0 ≡ db)
    × (((create_user engine bcrypt codec ann "pw" db).1
          ≡ some "create user: UNIQUE constraint failed: users.id")
        ⊎ ((create_user engine bcrypt codec ann "pw" db).1
            ≡ some "create user: UNIQUE constraint failed: users.email"))
create_user_taken_example =
    create_user_taken engine bcrypt codec ann "pw" db "h-pw" refl refl (inl taken)

db-IsConsistent : IsConsistent db
db-IsConsistent = ((tt, tt), (tt, tt))

abbrev bob : User
bob = record ann { id = "u2"; email = "bob@test" }

ids_apart : ann.id ≢ bob.id
ids_apart = ground (arith, eq_iff ann.id bob.id)

delete_user_lem_example :
    let after = (delete_user engine "u1" db).0 in
    (get_by_id engine codec after "u1" ≡ missing)
    × (exists (λ p. p.0 == "u1") after.user_roles ≡ false)
    × (is_user_blocked engine "u1" after ≡ (false, none))
    × (get_by_id engine codec after "u2" ≡ get_by_id engine codec db "u2")
delete_user_lem_example =
    delete_user_lem engine engine codec "u1" "u2" db (refl, refl, refl) refl ids_apart

abbrev rule_ann : Rules.User
rule_ann = record {
  user_id = "u1";
  email = "ann@test";
  email_verified = true;
  name = "Ann A";
  nickname = "";
  user_metadata = none;
  app_metadata = none;
  id_token_claims = none;
  access_token_claims = some (("tier", str "gold") ∷ []);
}
