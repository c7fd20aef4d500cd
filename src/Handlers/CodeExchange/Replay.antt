-- ===== src/Handlers/CodeExchange/Replay.antt =====
-- A duplicate of a successful exchange: it gets the JSON of the first answer for thirty seconds.
use mathlib.Core.Path.{subst}
use fake_auth.Base.{
  ◌+◌, ◌≤◌, String, ◌≡◌, refl, sym, ap, ◌∙◌, ◌≢◌, true, false, Option, none, some, [], arith,
  eq_of_ne, if◌then◌else◌, ltb, after,
}
use fake_auth.Dict.{Dict, get, put, get-put_self}
use fake_auth.Dict.Range.{get-sweep, alive, sweep}
use fake_auth.Json.{Value}
use fake_auth.Database
use fake_auth.Database.{Fetched, found, missing, broken, get_by_id}
use fake_auth.Grants
use fake_auth.Grants.{AuthCode, consume_code}
use fake_auth.Grants.OneTime.{consume_code_lem}
use fake_auth.Handlers.{
  Env, Draws, Config, ReplayEntry, State, json, bytes, Response, described, code_replay_ttl,
}
use fake_auth.Handlers.CodeExchange.{
  Exchange, issued, remember, replayed, refusal, grant_tokens, checked, consumed,
  handle_authorization_code,
}
use fake_auth.Handlers.CodeExchange.Soundness.{
  issues_tokens-succeeds, issues_tokens, refusal-granted, granted, replayed_plain,
}
use fake_auth.Handlers.CodeExchange.Outcomes.{Spent, exchange_spends}

-- The JSON of a response.
abbrev pub payload : Response → Dict Value
payload r = elim r.body [ json m ↦ m | _ ↦ [] ]

module _ (cfg : Config) (env : Env) (draws : Draws) (x : Exchange)
    (prompt : draws.clock 7 ≤ draws.clock 6 + code_replay_ttl) where
  -- After a successful answer, the cache holds its bytes.
  abbrev Cached : State × Response → Type 0
  Cached (s, r) =
      issues_tokens r ≡ true
      → get s.code_replay_cache x.code
        ≡ some (record {
          body = env.codec.marshal (payload r);
          expires = draws.clock 6 + code_replay_ttl;
        })

  kept_entry :
      (m : Dict ReplayEntry) (body : String)
      → get
          (sweep
            (λ e. after (draws.clock 7) e.expires)
            (put m x.code (record { body = body; expires = draws.clock 6 + code_replay_ttl })))
          x.code
        ≡ some (record { body = body; expires = draws.clock 6 + code_replay_ttl })
  kept_entry m body =
      get-sweep (λ (e : ReplayEntry). after (draws.clock 7) e.expires) (put m x.code _) x.code
      ∙ ap (alive (λ (e : ReplayEntry). after (draws.clock 7) e.expires)) (get-put_self m x.code _)
      ∙ ground arith

  issued-Cached :
      (s : State) (g : Grants.Store) (ac : AuthCode) (u : Database.User) (session_id : String)
      (o : Option String)
      → Cached (issued cfg env draws s g ac x u session_id o)
  unfolding issued remember
  issued-Cached s g ac u session_id none h = absurd (cc h)
  issued-Cached s g ac u session_id (some token) h = kept_entry s.code_replay_cache _

  grant_tokens-Cached :
      (s : State) (g : Grants.Store) (ac : AuthCode) (f : Fetched Database.User)
      → Cached (grant_tokens cfg env draws s g ac x f)
  unfolding grant_tokens
  grant_tokens-Cached s g ac missing h = absurd (cc h)
  grant_tokens-Cached s g ac (broken e) h = absurd (cc h)
  grant_tokens-Cached s g ac (found u) h = issued-Cached s g ac u _ _ h

  checked-Cached :
      (s : State) (g : Grants.Store) (ac : AuthCode) (o : Option Response)
      → granted o ≡ false
      → Cached (checked cfg env draws s g ac x o)
  unfolding checked
  checked-Cached s g ac (some r) plain h = absurd (cc (issues_tokens-succeeds r h, plain))
  checked-Cached s g ac none plain h = grant_tokens-Cached s g ac _ h

  consumed-Cached :
      (s : State) (g : Grants.Store) (o : Option AuthCode)
      → Cached (consumed cfg env draws s x (g, o))
  unfolding consumed
  consumed-Cached s g none h =
      absurd (cc (h, replayed_plain (draws.clock 1) (get s.code_replay_cache x.code)))
  consumed-Cached s g (some ac) h =
      checked-Cached (record s { grant_store = some g }) g ac (refusal cfg env ac x)
        (refusal-granted cfg env draws x ac) h

  exchange-Cached :
      (s : State) (g : Grants.Store)
      → s.grant_store ≡ some g
      → x.code ≢ ""
      → Cached (handle_authorization_code cfg env draws s x)
  unfolding handle_authorization_code
  exchange-Cached s g set given =
      rw (set, handle_authorization_code)
        (rw (eq_of_ne x.code "" given, handle_authorization_code) (consumed-Cached s _ _))

module _ (cfg : Config) (env : Env) (later : Draws) (y : Exchange) where
  unknown_code :
      (s : State) (g : Grants.Store) (o : Option AuthCode)
      → o ≡ none
      → (consumed cfg env later s y (g, o)).1
        ≡ replayed (later.clock 1) (get s.code_replay_cache y.code)
  unfolding consumed
  unknown_code s g none e = refl
  unknown_code s g (some ac) e = absurd (cc e)

  -- A code that the store does not hold is answered from the cache.
  answered_from_cache :
      (s : State)
      → Spent y.code s
      → y.code ≢ ""
      → (handle_authorization_code cfg env later s y).1
        ≡ replayed (later.clock 1) (get s.code_replay_cache y.code)
  unfolding handle_authorization_code
  answered_from_cache s spent given =
      rw (spent.configured, handle_authorization_code)
        (rw (eq_of_ne y.code "" given, handle_authorization_code)
          (unknown_code s _ _ (
            (consume_code_lem (later.clock 0) y.code spent.store).0
            ∙ ap (alive (Grants.code_expired (later.clock 0))) spent.gone)))

-- With a grant store configured, after an exchange that issued tokens, and that swept the cache
-- before its own entry expired, a second request with the same code is answered with the marshalled
-- JSON of that answer before the thirty seconds are over, and with invalid_grant from then on,
-- whatever else it carries.
pub duplicate_exchange :
    (cfg : Config) (env : Env) (draws later : Draws) (s : State) (g : Grants.Store) (x y : Exchange)
    → s.grant_store ≡ some g
    → x.code ≢ ""
    → y.code ≡ x.code
    → draws.clock 7 ≤ draws.clock 6 + code_replay_ttl
    → issues_tokens (handle_authorization_code cfg env draws s x).1 ≡ true
    → (handle_authorization_code cfg env later (handle_authorization_code cfg env draws s x).0 y).1
      ≡ (if ltb (later.clock 1) (draws.clock 6 + code_replay_ttl)
          then record {
            status = 200;
            body =
                bytes (env.codec.marshal (payload (handle_authorization_code cfg env draws s x).1));
          }
          else described 400 "invalid_grant" "Invalid or expired authorization code")
unfolding replayed
duplicate_exchange cfg env draws later s g x y set given again prompt answered =
    let s1 : State = (handle_authorization_code cfg env draws s x).0 in
    answered_from_cache cfg env later y s1
      (subst (λ c. Spent c s1) (sym again) (exchange_spends cfg env draws x s g set given))
      (subst (λ c. c ≢ "") (sym again) given)
    ∙ ap (replayed (later.clock 1)) (
        ap (get s1.code_replay_cache) again
        ∙ exchange-Cached cfg env draws x prompt s g set given answered)
