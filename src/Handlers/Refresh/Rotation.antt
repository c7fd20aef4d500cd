-- ===== src/Handlers/Refresh/Rotation.antt =====
-- What a refresh needs and what it leaves behind.
use Prim.Native.String
use mathlib.Core.Path.{subst}
use fake_auth.Base.{
  ℕ, ◌+◌, ◌≤◌, String, ◌≡◌, refl, sym, ap, ◌∙◌, ◌≢◌, ◌⊎◌, inl, inr, true, not, ◌&&◌, Option, none,
  some, Bool-cases, Option-cases, arith, ◌==◌, eq_iff, eq_of_ne, or_else, after,
}
use fake_auth.Text.{contains, or_text}
use fake_auth.Dict.{Dict, get, get-put_self}
use fake_auth.Dict.Range.{alive}
use fake_auth.Json.{Value}
use fake_auth.Grants
use fake_auth.Grants.{
  RefreshGrant, refresh_expired, take_refresh, consume_refresh_token, save_refresh_token,
  clean_expired_refresh,
}
use fake_auth.Grants.OneTime.{consume_refresh_token_lem, save_refresh_token_ne}
use fake_auth.Handlers.{Env, Draws, Config, State, Response}
use fake_auth.Handlers.CodeExchange.Soundness.{issues_tokens}
use fake_auth.Handlers.Refresh.{rotate, refreshed, accepted, consumed, handle_refresh_token}

alive_refresh :
    (now : ℕ) (rg : RefreshGrant) (o : Option RefreshGrant)
    → alive (refresh_expired now) o ≡ some rg
    → (o ≡ some rg) × (now ≤ rg.expires_at)
alive_refresh now rg none h = absurd (cc h)
alive_refresh now rg (some other) h = elim (Bool-cases (refresh_expired now other)) [
  | inl old ↦ absurd (cc (rw old at h))
  | inr fresh ↦
      let same_grant : some other ≡ some rg = rw fresh at h in
      let same_term : other.expires_at ≡ rg.expires_at =
        ap (λ o. (or_else o other).expires_at) same_grant in
      (same_grant, ground arith)
]

module _ (cfg : Config) (env : Env) (draws : Draws) (token client_id : String) where
  accepted_client :
      (s : State) (g : Grants.Store) (rg : RefreshGrant)
      → issues_tokens (accepted cfg env draws s g rg client_id).1 ≡ true
      → (client_id ≡ "") ⊎ (rg.client_id ≡ client_id)
  unfolding accepted
  accepted_client s g rg h =
      elim (Bool-cases (not (client_id == "") && not (rg.client_id == client_id))) [
        | inl other ↦ absurd (cc (rw other at h))
        | inr fits ↦ ground (arith, eq_iff client_id "", eq_iff rg.client_id client_id)
      ]

  consumed_sound :
      (s : State) (g : Grants.Store) (o : Option RefreshGrant)
      → issues_tokens (consumed cfg env draws s client_id (g, o)).1 ≡ true
      → (rg : RefreshGrant) × (o ≡ some rg) × ((client_id ≡ "") ⊎ (rg.client_id ≡ client_id))
  unfolding consumed
  consumed_sound s g none h = absurd (cc h)
  consumed_sound s g (some rg) h =
      (rg, refl, accepted_client (record s { grant_store = some g }) g rg h)

-- A refresh answers with tokens only if the store held the presented token, unexpired, for the
-- client that the request names, if it names one.
pub refresh_only_if_held :
    (cfg : Config) (env : Env) (draws : Draws) (s : State) (token client_id : String)
    → issues_tokens (handle_refresh_token cfg env draws s token client_id).1 ≡ true
    → (g : Grants.Store) × (s.grant_store ≡ some g)
      × (rg : RefreshGrant) × (get g.refresh token ≡ some rg)
      × (draws.clock 0 ≤ rg.expires_at)
      × ((client_id ≡ "") ⊎ (rg.client_id ≡ client_id))
unfolding handle_refresh_token
refresh_only_if_held cfg env draws s token client_id h = elim (Option-cases s.grant_store) [
  | inl unset ↦ absurd (cc (rw (unset, handle_refresh_token) at h))
  | inr (g, set) ↦ elim (Bool-cases (token == "")) [
    | inl empty ↦
        absurd (cc (rw (empty, handle_refresh_token) at rw (set, handle_refresh_token) at h))
    | inr given ↦
        let (rg, e, fits) =
          consumed_sound cfg env draws token client_id s
            (consume_refresh_token (draws.clock 0) token g).0
            (consume_refresh_token (draws.clock 0) token g).1
            (rw given at rw (set, handle_refresh_token) at h) in
        let (held, fresh) =
          alive_refresh (draws.clock 0) rg _
            (sym (consume_refresh_token_lem (draws.clock 0) token g).0 ∙ e) in
        (g, set, rg, held, fresh, fits)
  ]
]

-- The grant that a rotation saves.
abbrev pub successor : Draws → Grants.Store → RefreshGrant → RefreshGrant
successor draws g rg = record rg {
  audience = "";
  session_id = or_text rg.session_id (String.◌++◌ "sid_" (draws.uuid 0));
  expires_at = draws.clock 3 + g.refresh_ttl;
}

-- The token that a rotation saves it under.
abbrev pub new_token : Draws → String
new_token draws = String.◌++◌ "rt_" (draws.uuid 1)

-- The new token is in the store and the old one is not.
pub record Rotated (draws : Draws) (token : String) (g : Grants.Store) (rg : RefreshGrant)
    (s : State) : Type 0 where
  pub kept : Grants.Store
  pub configured : s.grant_store ≡ some kept
  pub saved : get kept.refresh (new_token draws) ≡ some (successor draws g rg)
  pub gone : get kept.refresh token ≡ none

module _ (draws : Draws) (token : String) (apart : new_token draws ≢ token) where
  module _ (g : Grants.Store) (rg : RefreshGrant) (session_id : String) (resp : Dict Value)
      (wanted : contains rg.scope "offline_access" ≡ true) where
    rotate_new :
        get (rotate draws g rg session_id resp).0.refresh (new_token draws)
        ≡ some (record rg {
          audience = "";
          session_id = session_id;
          expires_at = draws.clock 3 + g.refresh_ttl;
        })
    unfolding rotate save_refresh_token
    rotate_new =
        rw (wanted, rotate)
          (get-put_self (clean_expired_refresh (draws.clock 4) g).refresh (new_token draws) _)

    rotate_old :
        get g.refresh token ≡ none → get (rotate draws g rg session_id resp).0.refresh token ≡ none
    unfolding rotate
    rotate_old gone =
        rw (wanted, rotate)
          (save_refresh_token_ne (draws.clock 3) (draws.clock 4) (new_token draws) token _ g apart
            ∙ ap (alive (refresh_expired (draws.clock 4))) gone)

  module _ (cfg : Config) (env : Env) (client_id : String) where
    refreshed-Rotated :
        (s : State) (g g0 : Grants.Store) (rg : RefreshGrant) (o : Option String)
        → g.refresh_ttl ≡ g0.refresh_ttl
        → contains rg.scope "offline_access" ≡ true
        → get g.refresh token ≡ none
        → issues_tokens
            (refreshed cfg env draws s g rg
              (or_text rg.session_id (String.◌++◌ "sid_" (draws.uuid 0)))
              o).1
          ≡ true
        → Rotated draws token g0 rg
            (refreshed cfg env draws s g rg
              (or_text rg.session_id (String.◌++◌ "sid_" (draws.uuid 0)))
              o).0
    unfolding refreshed
    refreshed-Rotated s g g0 rg none kept_ttl wanted gone h = absurd (cc h)
    refreshed-Rotated s g g0 rg (some access) kept_ttl wanted gone h = record {
      kept = _;
      configured = refl;
      saved =
          rotate_new g rg _ _ wanted
          ∙ ap (λ ttl. some (record (successor draws g0 rg) { expires_at = draws.clock 3 + ttl }))
              kept_ttl;
      gone = rotate_old g rg _ _ wanted gone;
    }

    accepted-Rotated :
        (s : State) (g g0 : Grants.Store) (rg : RefreshGrant)
        → g.refresh_ttl ≡ g0.refresh_ttl
        → contains rg.scope "offline_access" ≡ true
        → get g.refresh token ≡ none
        → issues_tokens (accepted cfg env draws s g rg client_id).1 ≡ true
        → Rotated draws token g0 rg (accepted cfg env draws s g rg client_id).0
    unfolding accepted
    accepted-Rotated s g g0 rg kept_ttl wanted gone h =
        elim (Bool-cases (not (client_id == "") && not (rg.client_id == client_id))) [
          | inl other ↦ absurd (cc (rw other at h))
          | inr fits ↦ rw fits (refreshed-Rotated s g g0 rg _ kept_ttl wanted gone (rw fits at h))
        ]

    consumed-Rotated :
        (s : State) (g g0 : Grants.Store) (rg : RefreshGrant)
        → g.refresh_ttl ≡ g0.refresh_ttl
        → contains rg.scope "offline_access" ≡ true
        → get g.refresh token ≡ none
        → issues_tokens (consumed cfg env draws s client_id (g, some rg)).1 ≡ true
        → Rotated draws token g0 rg (consumed cfg env draws s client_id (g, some rg)).0
    unfolding consumed
    consumed-Rotated s g = accepted-Rotated (record s { grant_store = some g }) g

take_refresh-ttl :
    (now : ℕ) (token : String) (s : Grants.Store) (o : Option RefreshGrant)
    → (take_refresh now token s o).0.refresh_ttl ≡ s.refresh_ttl
unfolding take_refresh
take_refresh-ttl now token s none = refl
take_refresh-ttl now token s (some rg) = elim (Bool-cases (after now rg.expires_at)) [
  | inl old ↦ rw old refl
  | inr fresh ↦ rw fresh refl
]

pub handle_refresh_token_lem :
    (cfg : Config) (env : Env) (draws : Draws) (s : State) (g : Grants.Store)
    (token client_id : String)
    → s.grant_store ≡ some g
    → token ≢ ""
    → handle_refresh_token cfg env draws s token client_id
      ≡ consumed cfg env draws s client_id (consume_refresh_token (draws.clock 0) token g)
unfolding handle_refresh_token
handle_refresh_token_lem cfg env draws s g token client_id set given =
    rw (set, handle_refresh_token) (rw (eq_of_ne token "" given) refl)

-- When a refresh with a token that the store holds, unexpired and with the scope offline_access,
-- answers with tokens, and the new refresh token is another text than the old one, then the store
-- holds the new token for the same user, client, scope and session, for a new term, and no longer
-- holds the old one.
pub refresh_rotates :
    (cfg : Config) (env : Env) (draws : Draws) (s : State) (g : Grants.Store)
    (token client_id : String) (rg : RefreshGrant)
    → s.grant_store ≡ some g
    → token ≢ ""
    → get g.refresh token ≡ some rg
    → draws.clock 0 ≤ rg.expires_at
    → contains rg.scope "offline_access" ≡ true
    → new_token draws ≢ token
    → issues_tokens (handle_refresh_token cfg env draws s token client_id).1 ≡ true
    → Rotated draws token g rg (handle_refresh_token cfg env draws s token client_id).0
unfolding consume_refresh_token
refresh_rotates cfg env draws s g token client_id rg set given held fresh wanted apart h =
    let now : ℕ = draws.clock 0 in
    let unexpired : alive (refresh_expired now) (some rg) ≡ some rg = ground arith in
    let handed : (consume_refresh_token now token g).1 ≡ some rg =
      (consume_refresh_token_lem now token g).0
      ∙ ap (alive (refresh_expired now)) held
      ∙ unexpired in
    let kept : (consume_refresh_token now token g).0.refresh_ttl ≡ g.refresh_ttl =
      take_refresh-ttl now token g (get g.refresh token) in
    let result =
      subst
        (λ o.
          issues_tokens
              (consumed cfg env draws s client_id ((consume_refresh_token now token g).0, o)).1
            ≡ true
          → Rotated draws token g rg
              (consumed cfg env draws s client_id ((consume_refresh_token now token g).0, o)).0)
        (sym handed)
        (consumed-Rotated draws token apart cfg env client_id s
          (consume_refresh_token now token g).0 g rg kept wanted
          (consume_refresh_token_lem now token g).1) in
    let run = handle_refresh_token_lem cfg env draws s g token client_id set given in
    subst (λ (p : State × Response). Rotated draws token g rg p.0) (sym run)
      (result (subst (λ (p : State × Response). issues_tokens p.1 ≡ true) run h))
