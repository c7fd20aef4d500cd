-- ===== src/Tests/Server.antt =====
-- Sequences of requests, the tables, and the other handlers.
use fake_auth.Base.{
  ℕ, ◌+◌, ◌*◌, ◌≡◌, refl, inl, ltb, filter, if◌then◌else◌, arith, eq_iff, true, false, none, some,
  List, [], ◌∷◌, length, pos, ◌==◌,
}
use fake_auth.Table.{exists}
use fake_auth.Text.{has_prefix, trim_prefix}
use fake_auth.Token.{validate, parsed}
use fake_auth.Web.{Request}
use fake_auth.Database
use fake_auth.Database.{UserRow, RoleRow, Db, missing}
use fake_auth.Database.Users.{IsConsistent}
use fake_auth.Database.Listing.{ListUsersOpts, search_text, list_users}
use fake_auth.Database.Listing.Pages.{get_elem?, sought, shown, list_users_lem}
use fake_auth.Database.Roles.{get_role_by_id, delete_role}
use fake_auth.Database.Roles.Laws.{delete_role_lem}
use fake_auth.Database.Seed.{seed_roles, seed_clients_and_connections}
use fake_auth.Database.Seed.Idempotence.{seeding_is_idempotent}
use fake_auth.Grants.Refinement.{Call, saves, consumes, answers, ideal_answers, answers-refine}
use fake_auth.Handlers.{Env, State, cleared}
use fake_auth.Handlers.Logout.{handle_logout}
use fake_auth.Handlers.Logout.Ends.{Ended, logout_ends_session}
use fake_auth.Handlers.Profile.{handle_userinfo}
use fake_auth.Handlers.Profile.Access.{HasSubject, userinfo_only_if_valid}
use fake_auth.Handlers.Serve.{serve_http}
use fake_auth.Handlers.Serve.Keeps.{Step, run, run-IsConsistent, get_leaves_database}
use fake_auth.Tests.Fixtures.{
  config, env, draws_at, state, grants, code_grant, issuer, jwt, db, empty_db, ann_row, engine,
  sessions,
}

abbrev request : Request
request = record {
  method = "GET";
  path = "/userinfo";
  query = [];
  form = [];
  cookie = some "sid_1";
  authorization = "Bearer https://auth.test";
  content_type = "";
  body = "{}";
  json_body = some (("name", fake_auth.Json.str "Ann B") ∷ []);
}

abbrev removal : Request
removal = record request { method = "DELETE"; path = "/api/v2/users/u1" }

abbrev patch : Request
patch = record request { method = "PATCH"; path = "/api/v2/users/u1" }

abbrev steps : List Step
steps =
    record { draws = draws_at 60 "x1"; request = patch }
    ∷ record { draws = draws_at 61 "x2"; request = removal }
    ∷ []

run-IsConsistent_example : IsConsistent (run config env state steps).db
run-IsConsistent_example = run-IsConsistent config env state steps ((tt, tt), (tt, tt))

get_leaves_database_example : (serve_http config env (draws_at 60 "x1") state request).0.db ≡ db
get_leaves_database_example = get_leaves_database config env (draws_at 60 "x1") state request refl

abbrev options : ListUsersOpts
options = record { page = pos 1; per_page = pos 1; query = "email:" }

abbrev bob_row : UserRow
bob_row = record ann_row { id = "u2"; email = "bob@test" }

abbrev two_users : Db
two_users = record db { users = bob_row ∷ ann_row ∷ [] }

list_users_lem_example :
    let q = search_text (λ s. s) "email:" in
    (users : List Database.User) × (total : ℕ) × (list_users engine (λ s. s) two_users options
      ≡ some (users, total))
    × ((k : ℕ)
        → get_elem? users k ≡ (
            if ltb k 1
            then shown (get_elem? (filter (sought engine q) two_users.users) (1 * 1 + k))
            else none))
    × (total ≡ length (filter (sought engine q) two_users.users))
list_users_lem_example =
    list_users_lem engine (λ s. s) two_users options 1 1 refl (inl (omega arith, refl))
      (omega arith) refl refl

abbrev with_roles : Db
with_roles = record db {
  roles = record { id = "rol_default"; name = "user"; description = none } ∷ [];
  role_permissions = ("rol_default", "perm_read") ∷ [];
}

delete_role_lem_example :
    let after = (delete_role engine "rol_default" with_roles).0 in
    (get_role_by_id engine "rol_default" after ≡ missing)
    × (exists (λ p. p.1 == "rol_default") after.user_roles ≡ false)
    × (exists (λ p. p.0 == "rol_default") after.role_permissions ≡ false)
delete_role_lem_example =
    delete_role_lem engine engine "rol_default" with_roles (refl, refl, refl) refl

roles_seeded : (seed_roles engine empty_db).1 ≡ none
unfolding seed_roles
roles_seeded = refl

clients_seeded : (seed_clients_and_connections engine (seed_roles engine empty_db).0).1 ≡ none
unfolding seed_clients_and_connections seed_roles
clients_seeded = refl

seeding_is_idempotent_example :
    let seeded = (seed_clients_and_connections engine (seed_roles engine empty_db).0).0 in
    ((seed_roles engine seeded).0 ≡ seeded)
    × ((seed_clients_and_connections engine seeded).0 ≡ seeded)
seeding_is_idempotent_example =
    seeding_is_idempotent engine engine empty_db roles_seeded clients_seeded

abbrev calls : List Call
calls = saves 10 10 "c2" code_grant ∷ consumes 20 "c2" ∷ consumes 21 "c2" ∷ []

answers-refine_example : answers grants calls ≡ ideal_answers 50 grants.codes calls
answers-refine_example =
    answers-refine 5 grants calls (omega arith, (omega arith, (omega arith, tt)))

abbrev with_sessions : State
with_sessions = record state { session_store = some sessions }

logout_ends_session_example :
    let (after, a) = handle_logout env with_sessions request in
    Ended "sid_1" after × (a.cookie ≡ cleared) × (after.grant_store ≡ some grants) × (after.db ≡ db)
logout_ends_session_example =
    logout_ends_session env with_sessions request sessions "sid_1" refl refl
      (ground (arith, eq_iff "sid_1" ""))

-- The library yields claims with a subject.
abbrev named : Env
named = record env {
  jwt = record jwt {
    parse = λ now token.
        parsed
          (("iss", fake_auth.Json.str "https://auth.test") ∷ ("sub", fake_auth.Json.str "u1") ∷ [])
          true;
  };
}

userinfo_given : (handle_userinfo config named (draws_at 60 "x1") state request).status ≡ 200
unfolding handle_userinfo has_prefix validate fake_auth.Dict.get trim_prefix
    fake_auth.Handlers.Profile.userinfo_for fake_auth.Token.issuer_matches
userinfo_given = refl

userinfo_only_if_valid_example :
    (has_prefix "Bearer https://auth.test" "Bearer " ≡ true)
    × HasSubject (validate named.jwt issuer 60 (trim_prefix "Bearer https://auth.test" "Bearer "))
userinfo_only_if_valid_example =
    userinfo_only_if_valid config named (draws_at 60 "x1") state request userinfo_given
