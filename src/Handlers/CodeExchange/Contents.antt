-- ===== src/Handlers/CodeExchange/Contents.antt =====
-- The access token of an exchange: whom it is for.
use Prim.Native.String
use fake_auth.Base.{
  ℕ, String, pos, positive_or, given_or, or_else, [], ◌==◌, ap, ◌≡◌, refl, sym, ◌∙◌, ◌≢◌, true,
  false, Option, none, some, Bool-cases, inl, inr, arith, eq_iff, eq_of_ne,
}
use fake_auth.Text.{contains, or_text}
use fake_auth.Dict.{Dict, get, put, get-put}
use fake_auth.Json.{Value, str}
use fake_auth.Rules
use fake_auth.Token.{issue, access_claims}
use fake_auth.Token.Access.{expected, get-access_claims}
use fake_auth.Dict.Range.{first_of}
use fake_auth.Database
use fake_auth.Database.{Fetched, found, missing, broken, get_by_id}
use fake_auth.Grants
use fake_auth.Grants.{AuthCode, consume_code}
use fake_auth.Grants.OneTime.{consume_code_lem}
use fake_auth.Handlers.{Env, Draws, Config, State, Response, engine_of, access_lifetime}
use fake_auth.Handlers.Issuing.{merge_claims, get-merge_claims, rule_user, bearer, put_token}
use fake_auth.Handlers.CodeExchange.{
  Exchange, audience_of, effective_client, add_id_token, add_refresh, issued, grant_tokens, checked,
  consumed, refusal, handle_authorization_code,
}
use fake_auth.Handlers.CodeExchange.Soundness.{
  issues_tokens-succeeds, issues_tokens, granted, alive-some, refusal-granted, replayed_plain,
}
use fake_auth.Handlers.CodeExchange.Replay.{payload}

put_token_ne :
    (k : String) (o : Option String) (m : Dict Value) (j : String)
    → k ≢ j
    → get (put_token k o m) j ≡ get m j
unfolding put_token
put_token_ne k none m j apart = refl
put_token_ne k (some t) m j apart = ground (arith, eq_iff k j, get-put m k j (str t))

bearer-access_token :
    (lifetime : ℕ) (t : String) → get (bearer lifetime t) "access_token" ≡ some (str t)
unfolding bearer get put
bearer-access_token lifetime t = refl

module _ (cfg : Config) (env : Env) (draws : Draws) (x : Exchange) where
  add_id_token-access_token :
      (now : ℕ) (ac : AuthCode) (u : Database.User) (session_id t : String) (m : Dict Value)
      → get (add_id_token cfg env now ac x u session_id t m) "access_token" ≡ get m "access_token"
  unfolding add_id_token
  add_id_token-access_token now ac u session_id t m =
      elim (Bool-cases (contains ac.scope "openid")) [
        | inl wanted ↦
            rw (wanted, add_id_token)
              (put_token_ne "id_token" _ m "access_token"
                (ground (arith, eq_iff "id_token" "access_token")))
        | inr unwanted ↦ rw (unwanted, add_id_token) refl
      ]

  add_refresh-access_token :
      (g : Grants.Store) (ac : AuthCode) (u : Database.User) (session_id : String) (m : Dict Value)
      → get (add_refresh draws g ac x u session_id m).1 "access_token" ≡ get m "access_token"
  unfolding add_refresh
  add_refresh-access_token g ac u session_id m =
      elim (Bool-cases (contains ac.scope "offline_access")) [
        | inl wanted ↦
            rw (wanted, add_refresh)
              (put_token_ne "refresh_token" (some (String.◌++◌ "rt_" (draws.uuid 1))) m
                "access_token" (ground (arith, eq_iff "refresh_token" "access_token")))
        | inr unwanted ↦ rw (unwanted, add_refresh) refl
      ]

  issued_token :
      (s : State) (g : Grants.Store) (ac : AuthCode) (u : Database.User) (session_id : String)
      (o : Option String)
      → issues_tokens (issued cfg env draws s g ac x u session_id o).1 ≡ true
      → (t : String) × (o ≡ some t)
        × (get (payload (issued cfg env draws s g ac x u session_id o).1) "access_token"
            ≡ some (str t))
  unfolding issued
  issued_token s g ac u session_id none h = absurd (cc h)
  issued_token s g ac u session_id (some t) h = (
    t,
    refl,
    add_refresh-access_token g ac u session_id _
        ∙ add_id_token-access_token (draws.clock 3) ac u session_id t _
        ∙ bearer-access_token (access_lifetime cfg) t,
  )

  -- What the rules make of the user.
  abbrev pub ruled : Database.User → String → Rules.User
  ruled u client_id =
      (Rules.run cfg.rules_runner
        (record {
          user_id = u.id;
          email = u.email;
          email_verified = true;
          name = u.display_name;
          nickname = u.display_name;
          user_metadata = none;
          app_metadata = none;
          id_token_claims = none;
          access_token_claims = none;
        })
        (record {
          client_id = client_id;
          client_name = "";
          connection = "Username-Password-Authentication";
          protocol = "oidc-basic-profile";
          redirect_uri = "";
        })).0

  -- The claim that is due under a name: the configuration's, else the one of the rules, else the
  -- standard one, for the user, the issuer, the audience of the code or the default one, the client
  -- of the request or else of the code, the time of issue and the configured lifetime.
  abbrev pub due : AuthCode → Database.User → String → Option Value
  due ac u k =
      let client = given_or x.client_id ac.client_id in
      first_of
        (first_of (get (or_else cfg.extra_access_token_claims []) k)
          (get (or_else (ruled u client).access_token_claims []) k))
        (expected cfg.issuer (draws.clock 2) u.id (given_or ac.audience "https://api.example.com")
          client (pos (positive_or cfg.access_token_lifetime 86400)) [] k)

  -- The response carries an access token that was signed for the code's user, with exactly the
  -- claims that are due.
  pub record Carries (db : Database.Db) (ac : AuthCode) (r : Response) : Type 0 where
    pub user : Database.User
    pub is_user : get_by_id (engine_of env draws 0) env.codec db ac.user_id ≡ found user
    pub token : String
    pub claims : Dict Value
    pub signed : env.jwt.sign cfg.issuer.kid claims ≡ some token
    pub content : (k : String) → get claims k ≡ due ac user k
    pub sent : get (payload r) "access_token" ≡ some (str token)

  audience_of-given :
      (ac : AuthCode) → audience_of ac x ≡ given_or ac.audience "https://api.example.com"
  unfolding audience_of or_text
  audience_of-given ac = elim (Bool-cases (ac.audience == "")) [
    | inl empty ↦ rw empty refl
    | inr given ↦ rw (given, given) refl
  ]

  access_claims-due :
      (ac : AuthCode) (u : Database.User) (k : String)
      → get
          (access_claims cfg.issuer
            (draws.clock 2)
            u.id
            (audience_of ac x)
            (effective_client ac x)
            (pos (access_lifetime cfg))
            (merge_claims
              (rule_user cfg u (effective_client ac x)).access_token_claims
              cfg.extra_access_token_claims))
          k
        ≡ due ac u k
  unfolding access_lifetime rule_user
  access_claims-due ac u k = rw (audience_of-given ac) (
      get-access_claims cfg.issuer (draws.clock 2) u.id _ (effective_client ac x) _ _ k
      ∙ ap
          (λ o. first_of o (
            expected cfg.issuer (draws.clock 2) u.id
              (given_or ac.audience "https://api.example.com") (effective_client ac x)
              (pos (access_lifetime cfg)) [] k))
          (get-merge_claims _ cfg.extra_access_token_claims k))

  grant_tokens-Carries :
      (s : State) (g : Grants.Store) (ac : AuthCode) (f : Fetched Database.User)
      → get_by_id (engine_of env draws 0) env.codec s.db ac.user_id ≡ f
      → issues_tokens (grant_tokens cfg env draws s g ac x f).1 ≡ true
      → Carries s.db ac (grant_tokens cfg env draws s g ac x f).1
  unfolding grant_tokens issue
  grant_tokens-Carries s g ac missing e h = absurd (cc h)
  grant_tokens-Carries s g ac (broken error) e h = absurd (cc h)
  grant_tokens-Carries s g ac (found u) e h =
      let (t, signed, sent) = issued_token s g ac u _ _ h in
      record {
        user = u;
        is_user = e;
        token = t;
        claims = _;
        signed = signed;
        content = access_claims-due ac u;
        sent = sent;
      }

  checked-Carries :
      (s : State) (g : Grants.Store) (ac : AuthCode) (o : Option Response)
      → granted o ≡ false
      → issues_tokens (checked cfg env draws s g ac x o).1 ≡ true
      → Carries s.db ac (checked cfg env draws s g ac x o).1
  unfolding checked
  checked-Carries s g ac none plain h = grant_tokens-Carries s g ac _ refl h
  checked-Carries s g ac (some r) plain h = absurd (cc (issues_tokens-succeeds r h, plain))

  consumed-Carries :
      (s : State) (g : Grants.Store) (o : Option AuthCode)
      → issues_tokens (consumed cfg env draws s x (g, o)).1 ≡ true
      → (ac : AuthCode) × (o ≡ some ac) × Carries s.db ac (consumed cfg env draws s x (g, o)).1
  unfolding consumed
  consumed-Carries s g none h =
      absurd (cc (h, replayed_plain (draws.clock 1) (get s.code_replay_cache x.code)))
  consumed-Carries s g (some ac) h = (
    ac,
    refl,
    checked-Carries (record s { grant_store = some g }) g ac (refusal cfg env ac x)
        (refusal-granted cfg env draws x ac) h,
  )

  -- When an exchange of a code that is not empty, with a store configured, issues tokens, that is,
  -- answers with status 200 and not from the replay cache, then the store held a grant for the code,
  -- and the answer's access token was signed for exactly these claims: those of the configuration,
  -- those of the rules, run on the user of the grant, and, under the names that these leave, the
  -- user, the issuer, the grant's audience or the default one, the client of the request or else of
  -- the grant, the time of issue and the end of the configured lifetime.
  pub exchange-Carries :
      (s : State) (g : Grants.Store)
      → s.grant_store ≡ some g
      → x.code ≢ ""
      → issues_tokens (handle_authorization_code cfg env draws s x).1 ≡ true
      → (ac : AuthCode) × (get g.codes x.code ≡ some ac)
        × Carries s.db ac (handle_authorization_code cfg env draws s x).1
  unfolding handle_authorization_code
  exchange-Carries s g set given =
      rw (set, handle_authorization_code)
        (rw (eq_of_ne x.code "" given, handle_authorization_code)
          (λ h.
            let (ac, e, carries) =
              consumed-Carries s (consume_code (draws.clock 0) x.code g).0
                (consume_code (draws.clock 0) x.code g).1 h in
            (
              ac,
              (alive-some (draws.clock 0) ac _
                  (sym (consume_code_lem (draws.clock 0) x.code g).0 ∙ e)).0,
              carries,
            )))
