-- ===== src/Handlers/Endpoint/Introspection.antt =====
-- What introspection calls active.
use fake_auth.Base.{
  ℕ, String, ◌≡◌, refl, ◌∙◌, ◌≢◌, ◌↔◌, true, Option, none, some, Bool-cases, inl, inr, arith, ◌==◌,
  eq_iff, ne_of_eq,
}
use fake_auth.Dict.{Dict, get, get-put}
use fake_auth.Json.{Value, bool, str, as_string}
use fake_auth.Token.{Checked, accepted, refused, validate}
use fake_auth.Handlers.{Env, Config, Body, json}
use fake_auth.Handlers.Endpoint.{introspect, introspected, put_text}

-- What a caller reads first of the answer.
abbrev pub active_of : Body → Option Value
active_of (json m) = get m "active"
active_of _ = none

put_text-active :
    (k : String) (o : Option String) (out : Dict Value)
    → k ≢ "active"
    → get (put_text k o out) "active" ≡ get out "active"
put_text-active k none out other = refl
put_text-active k (some s) out other =
    ground (arith, eq_iff k "active", get-put out k "active" (str s))

introspected_active :
    (c : Checked)
    → active_of (json (introspected c)) ≡ some (bool true)
      ↔ (claims : Dict Value) × (c ≡ accepted claims)
unfolding introspected get
introspected_active (refused e) = ((λ h. absurd (cc h)), (λ (claims, h). absurd (cc h)))
introspected_active (accepted claims) = (
  (λ h. (claims, refl)),
  (λ h.
      put_text-active "scope" (as_string (get claims "scope")) _
        (ground (arith, eq_iff "scope" "active"))
      ∙ put_text-active "client_id" (as_string (get claims "azp")) _
          (ground (arith, eq_iff "client_id" "active"))),
)

-- Introspection answers `"active": true` exactly when a token is given and the issuer
-- validates it at that instant.
pub introspect_active :
    (cfg : Config) (env : Env) (now : ℕ) (tok : String)
    → active_of (introspect cfg env now tok).body ≡ some (bool true)
      ↔ (tok ≢ "") × (claims : Dict Value) × (validate env.jwt cfg.issuer now tok ≡ accepted claims)
unfolding introspect get
introspect_active cfg env now tok = elim (Bool-cases (tok == "")) [
  | inl empty ↦ (
    (λ h. absurd (cc (rw (empty, introspect) at h))),
    (λ (given, claims, valid). absurd (given ((eq_iff tok "").0 empty))),
  )
  | inr given ↦ (
    (λ h.
        let (claims, valid) =
          (introspected_active (validate env.jwt cfg.issuer now tok)).0
            (rw (given, introspect) at h) in
        (ne_of_eq tok "" given, claims, valid)),
    (λ (named, claims, valid).
        rw (given, introspect)
          ((introspected_active (validate env.jwt cfg.issuer now tok)).1 (claims, valid))),
  )
]
