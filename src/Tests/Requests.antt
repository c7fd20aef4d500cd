-- ===== src/Tests/Requests.antt =====
-- Requests to the token endpoint.
use fake_auth.Base.{◌≤◌, ◌≡◌, refl, ap, ◌≢◌, ◌⊎◌, ◌↔◌, arith, eq_iff, String, true, false, some}
use fake_auth.Text.{contains, has_prefix}
use fake_auth.Dict.{Dict, get}
use fake_auth.Json.{Value, bool}
use fake_auth.Token.{validate, accepted}
use fake_auth.Database
use fake_auth.Database.{get_by_id, get_by_email, verify_password, found}
use fake_auth.Grants
use fake_auth.Grants.{AuthCode, RefreshGrant, DeviceCode}
use fake_auth.Handlers.{State, bytes, described, engine_of}
use fake_auth.Handlers.CodeExchange.{handle_authorization_code}
use fake_auth.Handlers.CodeExchange.Soundness.{
  issues_tokens, FitsHeldCode, LacksCode, Replays, success_only_if_entitled_or_cached,
}
use fake_auth.Handlers.CodeExchange.Outcomes.{Spent, exchange_spends, no_second_exchange}
use fake_auth.Handlers.CodeExchange.Contents.{Carries, exchange-Carries}
use fake_auth.Handlers.CodeExchange.Replay.{duplicate_exchange}
use fake_auth.Handlers.Refresh.{handle_refresh_token}
use fake_auth.Handlers.Refresh.Rotation.{Rotated, refresh_only_if_held, refresh_rotates}
use fake_auth.Handlers.DeviceToken.{handle_device_code_token}
use fake_auth.Handlers.DeviceToken.Consent.{IsApproved, device_tokens_only_if_consented}
use fake_auth.Handlers.Password.{wrong_password, handle_password_grant}
use fake_auth.Handlers.Password.Credentials.{
  password_tokens_only_if_verified, refused_password_is_uniform,
}
use fake_auth.Handlers.Endpoint.{revoke_token, introspect}
use fake_auth.Handlers.Endpoint.Revocation.{revoked_is_refused}
use fake_auth.Handlers.Endpoint.Introspection.{active_of, introspect_active}
use fake_auth.Tests.Fixtures.{
  config, env, draws_at, state, exchange, login, grants, refresh_grant, issuer, jwt, codec, db,
  ann_row, issuer_token,
}

-- The exchange of the fixtures succeeds.
exchanged :
    issues_tokens (handle_authorization_code config env (draws_at 60 "x1") state exchange).1 ≡ true
unfolding handle_authorization_code fake_auth.Grants.consume_code get
    fake_auth.Handlers.CodeExchange.refusal fake_auth.Handlers.CodeExchange.normalize_uri
    fake_auth.Pkce.verify fake_auth.Clients.is_confidential fake_auth.Clients.validate_secret
    get_by_id fake_auth.Token.issue fake_auth.Handlers.Issuing.rule_user fake_auth.Rules.run
    fake_auth.Dict.put
exchanged = refl

exchanged_ok :
    (handle_authorization_code config env (draws_at 60 "x1") state exchange).1.status ≡ 200
unfolding handle_authorization_code fake_auth.Grants.consume_code get
    fake_auth.Handlers.CodeExchange.refusal fake_auth.Handlers.CodeExchange.normalize_uri
    fake_auth.Pkce.verify fake_auth.Clients.is_confidential fake_auth.Clients.validate_secret
    get_by_id fake_auth.Token.issue fake_auth.Handlers.Issuing.rule_user fake_auth.Rules.run
    fake_auth.Dict.put
exchanged_ok = refl

success_only_if_entitled_or_cached_example :
    FitsHeldCode config env (draws_at 60 "x1") state exchange
    ⊎ (LacksCode (draws_at 60 "x1") state exchange
        × Replays config env
            (draws_at 60 "x1")
            exchange
            state.code_replay_cache
            (handle_authorization_code config env (draws_at 60 "x1") state exchange).1)
success_only_if_entitled_or_cached_example =
    success_only_if_entitled_or_cached config env (draws_at 60 "x1") state exchange exchanged_ok

code_named : exchange.code ≢ ""
code_named = ground (arith, eq_iff "c1" "")

exchange_spends_example :
    Spent "c1" (handle_authorization_code config env (draws_at 60 "x1") state exchange).0
exchange_spends_example =
    exchange_spends config env (draws_at 60 "x1") exchange state grants refl code_named

no_second_exchange_example :
    issues_tokens
      (handle_authorization_code config env
        (draws_at 61 "x2")
        (handle_authorization_code config env (draws_at 60 "x1") state exchange).0
        exchange).1
    ≡ false
no_second_exchange_example =
    no_second_exchange config env (draws_at 60 "x1") (draws_at 61 "x2") state grants exchange
      exchange refl code_named refl

duplicate_exchange_example :
    (handle_authorization_code config env
      (draws_at 61 "x2")
      (handle_authorization_code config env (draws_at 60 "x1") state exchange).0
      exchange).1
    ≡ record { status = 200; body = bytes "{}" }
duplicate_exchange_example =
    duplicate_exchange config env (draws_at 60 "x1") (draws_at 61 "x2") state grants exchange
      exchange refl code_named refl (omega arith) exchanged

exchange-Carries_example :
    (ac : AuthCode) × (get grants.codes "c1" ≡ some ac)
    × Carries config env
        (draws_at 60 "x1")
        exchange
        db
        ac
        (handle_authorization_code config env (draws_at 60 "x1") state exchange).1
exchange-Carries_example =
    exchange-Carries config env (draws_at 60 "x1") exchange state grants refl code_named exchanged

refreshed :
    issues_tokens (handle_refresh_token config env (draws_at 60 "x1") state "rt_1" "app").1 ≡ true
unfolding handle_refresh_token Grants.consume_refresh_token get fake_auth.Token.issue
    fake_auth.Dict.put
refreshed = refl

refresh_only_if_held_example :
    (g : Grants.Store) × (some grants ≡ some g)
    × (rg : RefreshGrant) × (get g.refresh "rt_1" ≡ some rg)
    × (60 ≤ rg.expires_at)
    × ((exchange.client_id ≡ "") ⊎ (rg.client_id ≡ "app"))
refresh_only_if_held_example =
    refresh_only_if_held config env (draws_at 60 "x1") state "rt_1" "app" refreshed

held : get grants.refresh "rt_1" ≡ some refresh_grant
unfolding get
held = refl

offline : contains "openid offline_access" "offline_access" ≡ true
unfolding contains
offline = refl

refresh_rotates_example :
    Rotated
      (draws_at 60 "x1")
      "rt_1"
      grants
      refresh_grant
      (handle_refresh_token config env (draws_at 60 "x1") state "rt_1" "app").0
refresh_rotates_example =
    refresh_rotates config env (draws_at 60 "x1") state grants "rt_1" "app" refresh_grant refl
      (ground (arith, eq_iff "rt_1" "")) held (omega arith) offline
      (ground (arith, eq_iff "rt_x1" "rt_1")) refreshed

approved :
    issues_tokens (handle_device_code_token config env (draws_at 60 "x1") state "dc_1").1 ≡ true
unfolding handle_device_code_token Grants.get_device_code get Grants.consume_device_code get_by_id
    fake_auth.Token.issue fake_auth.Handlers.Issuing.rule_user fake_auth.Rules.run
    fake_auth.Dict.put
approved = refl

device_tokens_only_if_consented_example :
    (g : Grants.Store) × (some grants ≡ some g)
    × (dc : DeviceCode) × (get g.devices "dc_1" ≡ some dc)
    × IsApproved 60 dc
device_tokens_only_if_consented_example =
    device_tokens_only_if_consented config env (draws_at 60 "x1") state "dc_1" approved

logged_in : issues_tokens (handle_password_grant config env (draws_at 60 "x1") state login).1 ≡ true
unfolding handle_password_grant get_by_email verify_password fake_auth.Token.issue get
    fake_auth.Handlers.Issuing.rule_user fake_auth.Rules.run fake_auth.Dict.put
logged_in = refl

password_tokens_only_if_verified_example :
    (login.username ≢ "")
    × (login.password ≢ "")
    × (u : Database.User) × (get_by_email (engine_of env (draws_at 60 "x1") 0) codec db "ann@test"
        ≡ found u)
    × (verify_password env.bcrypt u.password_hash "pw" ≡ true)
password_tokens_only_if_verified_example =
    password_tokens_only_if_verified config env (draws_at 60 "x1") state login logged_in

abbrev hash_of : Database.Fetched Database.User → String
hash_of (found u) = u.password_hash
hash_of _ = ""

wrong_hash :
    (u : Database.User)
    → get_by_email (engine_of env (draws_at 60 "x1") 0) codec db "ann@test" ≡ found u
    → verify_password env.bcrypt u.password_hash "guess" ≡ false
unfolding get_by_email verify_password
wrong_hash u e =
    let same_hash : ann_row.password_hash ≡ u.password_hash = ap hash_of e in rw (← same_hash) refl

refused_password_is_uniform_example :
    handle_password_grant config env (draws_at 60 "x1") state (record login { password = "guess" })
    ≡ (state, wrong_password)
refused_password_is_uniform_example =
    refused_password_is_uniform config env (draws_at 60 "x1") state
      (record login { password = "guess" }) wrong_hash

is_refresh : has_prefix "rt_1" "rt_" ≡ true
unfolding has_prefix
is_refresh = refl

revoked_is_refused_example :
    issues_tokens
      (handle_refresh_token config env
        (draws_at 60 "x1")
        (revoke_token state "rt_1" "").0
        "rt_1"
        "app").1
    ≡ false
revoked_is_refused_example =
    revoked_is_refused config env (draws_at 60 "x1") state "rt_1" "" "app"
      (ground (arith, eq_iff "rt_1" "")) is_refresh

introspect_active_example :
    active_of (introspect config env 60 "https://auth.test").body ≡ some (bool true)
    ↔ (issuer_token ≢ "")
      × (claims : Dict Value) × (validate jwt issuer 60 "https://auth.test" ≡ accepted claims)
introspect_active_example = introspect_active config env 60 "https://auth.test"
