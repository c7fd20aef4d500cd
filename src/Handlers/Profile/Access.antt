-- ===== src/Handlers/Profile/Access.antt =====
-- Who gets a profile from /userinfo.
use fake_auth.Base.{◌≡◌, refl, ◌≢◌, true, not, ◌||◌, ◌==◌, Bool-cases, inl, inr, arith, eq_iff}
use fake_auth.Text.{has_prefix, trim_prefix}
use fake_auth.Dict.{Dict, get}
use fake_auth.Json.{Value, string_or_empty}
use fake_auth.Token.{Checked, accepted, refused, validate}
use fake_auth.Web.{Request}
use fake_auth.Handlers.{Env, Draws, Config, State}
use fake_auth.Handlers.Profile.{userinfo_for, handle_userinfo}

-- The check yields claims with a subject.
pub record HasSubject (c : Checked) : Type 0 where
  pub claims : Dict Value
  pub valid : c ≡ accepted claims
  pub subject : string_or_empty (get claims "sub") ≢ ""

userinfo_for-HasSubject :
    (env : Env) (draws : Draws) (s : State) (c : Checked)
    → (userinfo_for env draws s c).status ≡ 200
    → HasSubject c
unfolding userinfo_for
userinfo_for-HasSubject env draws s (refused e) h = absurd (omega (arith, h))
userinfo_for-HasSubject env draws s (accepted claims) h =
    elim (Bool-cases (string_or_empty (get claims "sub") == "")) [
      | inl empty ↦ absurd (omega (arith, rw (empty, userinfo_for) at h))
      | inr given ↦ record {
        claims = claims;
        valid = refl;
        subject = ground (arith, eq_iff (string_or_empty (get claims "sub")) "");
      }
    ]

-- The user information is given out with status 200 only if the request has a bearer token, the
-- token is one that Validate accepts, and its claims name a subject.
pub userinfo_only_if_valid :
    (cfg : Config) (env : Env) (draws : Draws) (s : State) (r : Request)
    → (handle_userinfo cfg env draws s r).status ≡ 200
    → (has_prefix r.authorization "Bearer " ≡ true)
      × HasSubject
          (validate env.jwt cfg.issuer (draws.clock 0) (trim_prefix r.authorization "Bearer "))
unfolding handle_userinfo
userinfo_only_if_valid cfg env draws s r h =
    elim (Bool-cases (r.authorization == "" || not (has_prefix r.authorization "Bearer "))) [
      | inl missing ↦ absurd (omega (arith, rw (missing, handle_userinfo) at h))
      | inr bearer ↦
          (ground arith, userinfo_for-HasSubject env draws s _ (rw (bearer, handle_userinfo) at h))
    ]
