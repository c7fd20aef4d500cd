-- ===== src/Handlers/Endpoint/Revocation.antt =====
-- A revoked refresh token.
use fake_auth.Base.{
  String, ◌≡◌, sym, ap, ◌∙◌, ◌≢◌, true, false, ◌||◌, none, some, or_else, Bool-cases, Option-cases,
  inl, inr, ◌==◌, eq_of_ne,
}
use fake_auth.Text.{has_prefix}
use fake_auth.Dict.{get}
use fake_auth.Grants
use fake_auth.Grants.{revoke_refresh_token}
use fake_auth.Grants.OneTime.{revoke_refresh_token_lem}
use fake_auth.Handlers.{Env, Draws, Config, State}
use fake_auth.Handlers.CodeExchange.Soundness.{issues_tokens}
use fake_auth.Handlers.Refresh.{handle_refresh_token}
use fake_auth.Handlers.Refresh.Rotation.{refresh_only_if_held}
use fake_auth.Handlers.Endpoint.{revoke_token}

revoked_gone :
    (s : State) (tok hint : String) (g : Grants.Store)
    → tok ≢ ""
    → (hint == "refresh_token" || has_prefix tok "rt_") ≡ true
    → (revoke_token s tok hint).0.grant_store ≡ some g
    → get g.refresh tok ≡ none
unfolding revoke_token
revoked_gone s tok hint g given meant h = elim (Option-cases s.grant_store) [
  | inl unset ↦ absurd (
      cc (
        rw (unset, revoke_token) at rw (meant, revoke_token) at rw
          (eq_of_ne tok "" given, revoke_token) at h))
  | inr (g0, set) ↦
      let e : some (revoke_refresh_token tok g0).0 ≡ some g =
        rw (set, revoke_token) at rw (meant, revoke_token) at rw
          (eq_of_ne tok "" given, revoke_token) at h in
      sym (ap (λ o. get (or_else o g0).refresh tok) e) ∙ revoke_refresh_token_lem tok g0
]

-- After a refresh token that is not empty is revoked, by its prefix or by the hint, the next
-- refresh with it does not answer with tokens, for any client.
pub revoked_is_refused :
    (cfg : Config) (env : Env) (draws : Draws) (s : State) (tok hint client_id : String)
    → tok ≢ ""
    → (hint == "refresh_token" || has_prefix tok "rt_") ≡ true
    → issues_tokens (handle_refresh_token cfg env draws (revoke_token s tok hint).0 tok client_id).1
      ≡ false
revoked_is_refused cfg env draws s tok hint client_id given meant =
    elim (Bool-cases (
      issues_tokens
        (handle_refresh_token cfg env draws (revoke_token s tok hint).0 tok client_id).1)) [
          | inr no_tokens ↦ no_tokens
          | inl issues ↦
              let (g, set, rg, held, fresh, fits) =
                refresh_only_if_held cfg env draws (revoke_token s tok hint).0 tok client_id
                  issues in
              let found_again : none ≡ some rg =
                sym (revoked_gone s tok hint g given meant set) ∙ held in
              absurd (cc found_again)
        ]
