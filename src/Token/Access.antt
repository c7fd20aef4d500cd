-- ===== src/Token/Access.antt =====
-- The claims of an access token.
use fake_auth.Base.{
  ℕ, ◌+◌, ◌*◌, ℤ, pos, String, ◌≡◌, refl, ◌∙◌, ap, Option, none, some, arith, ◌==◌, positive_or,
  if◌then◌else◌, Bool-cases, inl, inr,
}
use fake_auth.Dict.{Dict, get, get-put}
use fake_auth.Dict.Range.{get-copy, first_of}
use fake_auth.Json.{Value, int, str}
use fake_auth.Token.{Issuer, standard_claims, access_claims, put_unless_empty, unix, second}

unix-add : (now lifetime : ℕ) → unix (now + lifetime * second) ≡ unix now + lifetime
unfolding unix
unix-add now lifetime = omega arith

-- The claims that every token carries, each with its value.
abbrev pub standard : Issuer → ℕ → String → String → ℕ → String → Option Value
standard i now sub aud lifetime k =
    if "iat" == k
    then some (int (pos (unix now)))
    else if "exp" == k
    then some (int (pos (unix now + lifetime)))
    else if "aud" == k
    then some (str aud)
    else if "iss" == k
    then some (str i.issuer)
    else if "sub" == k
    then some (str sub)
    else none

pub get-standard_claims :
    (i : Issuer) (now : ℕ) (sub aud : String) (lifetime : ℕ) (k : String)
    → get (standard_claims i now sub aud lifetime) k ≡ standard i now sub aud lifetime k
unfolding standard_claims get
get-standard_claims i now sub aud lifetime k = simp get-put (rw (← unix-add now lifetime) refl)

pub get-put_unless_empty :
    (s k : String) (v : Value) (m : Dict Value) (j : String)
    → get (put_unless_empty s k v m) j
      ≡ (if s == "" then get m j else if k == j then some v else get m j)
unfolding put_unless_empty
get-put_unless_empty s k v m j = elim (Bool-cases (s == "")) [
  | inl empty ↦ rw empty refl
  | inr text ↦ rw text (get-put m k j v)
]

module _ (i : Issuer) (now : ℕ) (sub aud client_id : String) (expires_in : ℤ)
    (custom : Dict Value) where
  -- The authorized party, where there is a client.
  abbrev pub expected : String → Option Value
  expected k =
      let rest = standard i now sub aud (positive_or expires_in 3600) k in
      if client_id == "" then rest else if "azp" == k then some (str client_id) else rest

  -- Every claim of an access token is the custom one, where that is given; else it is the subject,
  -- the issuer, the audience, the time of issue, the expiry one lifetime later (3600 seconds, if
  -- none is asked for), or the client, where there is one; and there is no other claim.
  pub get-access_claims :
      (k : String)
      → get (access_claims i now sub aud client_id expires_in custom) k
        ≡ first_of (get custom k) (expected k)
  unfolding access_claims
  get-access_claims k =
      get-copy custom _ k
      ∙ ap (first_of (get custom k)) (
          get-put_unless_empty client_id "azp" (str client_id) _ k
          ∙ rw (get-standard_claims i now sub aud (positive_or expires_in 3600) k) refl)
