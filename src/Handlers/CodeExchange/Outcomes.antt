-- ===== src/Handlers/CodeExchange/Outcomes.antt =====
-- What an exchange leaves behind: the code is spent, whatever the answer.
use fake_auth.Base.{
  String, ◌≡◌, refl, sym, ap, ◌∙◌, ◌≢◌, false, Option, none, some, Bool-cases, inl, inr, or_else,
  eq_of_ne,
}
use fake_auth.Text.{contains}
use fake_auth.Dict.{Dict, get}
use fake_auth.Json.{Value}
use fake_auth.Database
use fake_auth.Database.{Fetched, found, missing, broken, get_by_id}
use fake_auth.Grants
use fake_auth.Grants.{AuthCode, consume_code, save_refresh_token, clean_expired_refresh}
use fake_auth.Grants.OneTime.{consume_code_lem}
use fake_auth.Handlers.{Env, Draws, Config, State, Response}
use fake_auth.Handlers.CodeExchange.{
  Exchange, add_refresh, issued, remember, refusal, grant_tokens, checked, consumed,
  handle_authorization_code,
}
use fake_auth.Handlers.CodeExchange.Soundness.{issues_tokens, tokens_only_if_entitled}

-- The state holds a store without the code.
pub record Spent (code : String) (s : State) : Type 0 where
  pub store : Grants.Store
  pub configured : s.grant_store ≡ some store
  pub gone : get store.codes code ≡ none

add_refresh-codes :
    (draws : Draws) (g : Grants.Store) (ac : AuthCode) (x : Exchange) (u : Database.User)
    (session_id : String) (resp : Dict Value)
    → (add_refresh draws g ac x u session_id resp).0.codes ≡ g.codes
unfolding add_refresh save_refresh_token clean_expired_refresh
add_refresh-codes draws g ac x u session_id resp =
    elim (Bool-cases (contains ac.scope "offline_access")) [
      | inl wanted ↦ rw wanted refl
      | inr unwanted ↦ rw unwanted refl
    ]

module _ (cfg : Config) (env : Env) (draws : Draws) (x : Exchange) where
  module _ (s : State) (g : Grants.Store) (ac : AuthCode) (set : s.grant_store ≡ some g)
      (gone : get g.codes x.code ≡ none) where
    issued-Spent :
        (u : Database.User) (session_id : String) (o : Option String)
        → Spent x.code (issued cfg env draws s g ac x u session_id o).0
    unfolding issued remember
    issued-Spent u session_id none = record { store = g; configured = set; gone = gone }
    issued-Spent u session_id (some token) = record {
      store = _;
      configured = refl;
      gone = ap (λ m. get m x.code) (add_refresh-codes draws g ac x u session_id _) ∙ gone;
    }

    grant_tokens-Spent :
        (f : Fetched Database.User) → Spent x.code (grant_tokens cfg env draws s g ac x f).0
    unfolding grant_tokens
    grant_tokens-Spent missing = record { store = g; configured = set; gone = gone }
    grant_tokens-Spent (broken e) = record { store = g; configured = set; gone = gone }
    grant_tokens-Spent (found u) = issued-Spent u _ _

    checked-Spent : (o : Option Response) → Spent x.code (checked cfg env draws s g ac x o).0
    unfolding checked
    checked-Spent (some r) = record { store = g; configured = set; gone = gone }
    checked-Spent none = grant_tokens-Spent _

  consumed-Spent :
      (s : State) (g : Grants.Store) (o : Option AuthCode)
      → get g.codes x.code ≡ none
      → Spent x.code (consumed cfg env draws s x (g, o)).0
  unfolding consumed
  consumed-Spent s g none gone = record { store = g; configured = refl; gone = gone }
  consumed-Spent s g (some ac) gone =
      checked-Spent (record s { grant_store = some g }) g ac refl gone (refusal cfg env ac x)

  -- With a grant store configured, an exchange that presents a code that is not empty leaves the
  -- store without that code, whether it answers with tokens or with an error.
  pub exchange_spends :
      (s : State) (g : Grants.Store)
      → s.grant_store ≡ some g
      → x.code ≢ ""
      → Spent x.code (handle_authorization_code cfg env draws s x).0
  unfolding handle_authorization_code
  exchange_spends s g set given =
      rw (set, handle_authorization_code)
        (rw (eq_of_ne x.code "" given, handle_authorization_code)
          (consumed-Spent s _ _ (consume_code_lem (draws.clock 0) x.code g).1))

-- With a grant store configured, no second exchange of the same code answers with new tokens,
-- whatever the two requests and their answers are otherwise; a cached response is no new token.
pub no_second_exchange :
    (cfg : Config) (env : Env) (draws later : Draws) (s : State) (g : Grants.Store) (x y : Exchange)
    → s.grant_store ≡ some g
    → x.code ≢ ""
    → y.code ≡ x.code
    → issues_tokens
        (handle_authorization_code cfg env later
          (handle_authorization_code cfg env draws s x).0
          y).1
      ≡ false
no_second_exchange cfg env draws later s g x y set given again =
    let spent = exchange_spends cfg env draws x s g set given in
    elim (Bool-cases (
      issues_tokens
        (handle_authorization_code cfg env later (handle_authorization_code cfg env draws s x).0
          y).1)) [
            | inr refused ↦ refused
            | inl issues ↦
                let (kept, held, ac, has, fresh, k) =
                  tokens_only_if_entitled cfg env later _ y issues in
                let same_store : spent.store ≡ kept =
                  ap (λ o. or_else o spent.store) (sym spent.configured ∙ held) in
                let found_again : none ≡ some ac =
                  sym spent.gone
                  ∙ ap (get spent.store.codes) (sym again)
                  ∙ ap (λ m. get m.codes y.code) same_store
                  ∙ has in
                absurd (cc found_again)
          ]
