-- ===== src/Token/Identity.antt =====
-- The claims of an ID token.
use fake_auth.Base.{
  ℕ, ◌+◌, ℤ, pos, String, ◌≡◌, refl, ◌∙◌, Bool, true, false, not, ◌&&◌, Option, none, some, List,
  [], ◌∷◌, arith, ◌==◌, positive_or, if◌then◌else◌, All, Bool-cases, if_self, inl, inr,
}
use fake_auth.Text.{contains, or_text}
use fake_auth.Dict.{Dict, get, put, get-put}
use fake_auth.Dict.Range.{get-copy, first_of}
use fake_auth.Json.{Value, int, str, arr, strings}
use fake_auth.Token.{
  Jwt, Issuer, IdTokenOptions, standard_claims, put_unless_empty, put_amr, add_options, put_if,
  add_name, add_email, add_profile, id_claims, unix,
}
use fake_auth.Token.Access.{get-standard_claims, get-put_unless_empty}

abbrev pub unless_empty : String → String → Option Value
unless_empty s v = if s == "" then none else some (str v)

abbrev amr_claim : List String → Option Value
amr_claim [] = none
amr_claim (a ∷ more) = some (arr (strings (a ∷ more)))

get-put_amr :
    (amr : List String) (m : Dict Value) (k : String)
    → get (put_amr amr m) k ≡ (if "amr" == k then first_of (amr_claim amr) (get m k) else get m k)
unfolding put_amr
get-put_amr [] m k = ground arith
get-put_amr (a ∷ more) m k = get-put m "amr" k _

module _ (jwt : Jwt) (o : IdTokenOptions) (m : Dict Value) where
  get-add_options :
      (k : String)
      → get (add_options jwt (some o) m) k
        ≡ first_of (get o.custom_claims k) (
            get
              (put_unless_empty o.session_id "sid" (str o.session_id) (
                put_unless_empty o.auth_code "c_hash" (str (jwt.left_half_hash o.auth_code)) (
                  put_unless_empty o.access_token "at_hash"
                    (str (jwt.left_half_hash o.access_token))
                    (put_amr o.amr (put_unless_empty o.nonce "nonce" (str o.nonce) m)))))
              k)
  unfolding add_options
  get-add_options k = get-copy o.custom_claims _ k

-- The claim is none of those that the profile writes.
abbrev pub NotProfile : String → Type 0
NotProfile k =
    (("email" == k) ≡ false)
    × (("email_verified" == k) ≡ false)
    × (("name" == k) ≡ false)
    × (("given_name" == k) ≡ false)
    × (("family_name" == k) ≡ false)
    × (("nickname" == k) ≡ false)
    × (("picture" == k) ≡ false)

abbrev text_claim : Option String → Option Value
text_claim none = none
text_claim (some s) = some (str s)

get-put_if :
    (s : Option String) (k : String) (m : Dict Value) (j : String)
    → get (put_if s k m) j ≡ (if k == j then first_of (text_claim s) (get m j) else get m j)
unfolding put_if
get-put_if none k m j = ground arith
get-put_if (some s) k m j = get-put m k j (str s)

ruleset claim_laws = (get-put, get-put_unless_empty, get-put_if)

get-add_name :
    (name picture : String) (m : Dict Value) (k : String)
    → NotProfile k
    → get (add_name name picture m) k ≡ get m k
unfolding add_name
get-add_name name picture m k h = simp (claim_laws, h.2, h.3, h.4, h.5, h.6, if_self)

get-add_email :
    (email : String) (m : Dict Value) (k : String)
    → NotProfile k
    → get (add_email email m) k ≡ get m k
unfolding add_email
get-add_email email m k h = simp (claim_laws, h.0, h.1)

-- A write under a condition that leaves the claim alone.
get_if_same :
    (b : Bool) (x y : Dict Value) (k : String)
    → get x k ≡ get y k
    → get (if b then x else y) k ≡ get y k
get_if_same true x y k h = h
get_if_same false x y k h = refl

-- The profile leaves every other claim alone.
pub get-add_profile_other :
    (scope email name picture : String) (m : Dict Value) (k : String)
    → NotProfile k
    → get (add_profile scope email name picture m) k ≡ get m k
unfolding add_profile
get-add_profile_other scope email name picture m k h =
    get_if_same _ _ _ k (get-add_name name picture _ k h)
    ∙ get_if_same _ _ _ k (get-add_email email m k h)

add_name_email :
    (name picture : String) (m : Dict Value) → get (add_name name picture m) "email" ≡ get m "email"
unfolding add_name
add_name_email name picture m = simp (claim_laws, if_self)

-- The e-mail claim of an ID token: the scope asks for it, and there is an address.
pub get-add_profile_email :
    (scope email name picture : String) (m : Dict Value)
    → get (add_profile scope email name picture m) "email" ≡ (
        if contains (or_text scope "openid profile email") "email" && not (email == "")
        then some (str email)
        else get m "email")
unfolding add_profile
get-add_profile_email scope email name picture m =
    let mailed =
      if contains (or_text scope "openid profile email") "email" && not (email == "")
      then add_email email m
      else m in
    get_if_same _ (add_name name picture mailed) mailed "email" (add_name_email name picture mailed)
    ∙ elim (Bool-cases
        (contains (or_text scope "openid profile email") "email" && not (email == ""))) [
          | inl asked ↦ rw asked (unfold add_email in simp claim_laws refl)
          | inr silent ↦ rw silent refl
        ]

ruleset option_laws = (get-put, get-put_unless_empty, get-put_amr, get-standard_claims, if_self)

-- The claims that bind an ID token to its request.
abbrev pub bound_claims : List String
bound_claims = "sub" ∷ "iss" ∷ "aud" ∷ "iat" ∷ "exp" ∷ "nonce" ∷ "sid" ∷ "at_hash" ∷ "c_hash" ∷ []

-- The custom claims leave the claim alone.
abbrev pub Silent : Dict Value → String → Type 0
Silent custom k = get custom k ≡ none

module _ (jwt : Jwt) (i : Issuer) (now : ℕ) (sub aud client_id : String) (expires_in : ℤ)
    (scope email name picture : String) (o : IdTokenOptions) where
  abbrev token_claims : Dict Value
  token_claims = id_claims jwt i now sub aud client_id expires_in scope email name picture (some o)

  -- A claim that neither the profile nor the custom claims write.
  get-id_claims :
      (k : String)
      → NotProfile k
      → Silent o.custom_claims k
      → get token_claims k
        ≡ get
            (put_unless_empty o.session_id "sid" (str o.session_id) (
              put_unless_empty o.auth_code "c_hash" (str (jwt.left_half_hash o.auth_code)) (
                put_unless_empty o.access_token "at_hash"
                  (str (jwt.left_half_hash o.access_token))
                  (put_amr o.amr (
                    put_unless_empty o.nonce "nonce" (str o.nonce) (
                      put_unless_empty client_id "azp" (str client_id) (
                        put
                          (standard_claims i now sub aud (positive_or expires_in 3600))
                          "auth_time"
                          (int (pos (unix now))))))))))
            k
  unfolding id_claims
  get-id_claims k other silent =
      get-add_profile_other scope email name picture _ k other
      ∙ get-add_options jwt o _ k
      ∙ rw silent refl

  -- Where the custom claims leave these claims alone, an ID token names the subject, the issuer, the
  -- audience and the times of the request, repeats the nonce and the session, and holds the half
  -- hashes of the access token and of the code that it is issued with; each of the last four is
  -- left out where the text is empty.
  pub id_token_binds :
      All (Silent o.custom_claims) bound_claims
      → (get token_claims "sub" ≡ some (str sub))
        × (get token_claims "iss" ≡ some (str i.issuer))
        × (get token_claims "aud" ≡ some (str aud))
        × (get token_claims "iat" ≡ some (int (pos (unix now))))
        × (get token_claims "exp" ≡ some (int (pos (unix now + positive_or expires_in 3600))))
        × (get token_claims "nonce" ≡ unless_empty o.nonce o.nonce)
        × (get token_claims "sid" ≡ unless_empty o.session_id o.session_id)
        × (get token_claims "at_hash"
            ≡ unless_empty o.access_token (jwt.left_half_hash o.access_token))
        × (get token_claims "c_hash" ≡ unless_empty o.auth_code (jwt.left_half_hash o.auth_code))
  id_token_binds silent = (
    get-id_claims "sub" (refl, refl, refl, refl, refl, refl, refl) silent.0 ∙ simp option_laws,
    get-id_claims "iss" (refl, refl, refl, refl, refl, refl, refl) silent.1.0 ∙ simp option_laws,
    get-id_claims "aud" (refl, refl, refl, refl, refl, refl, refl) silent.1.1.0 ∙ simp option_laws,
    get-id_claims "iat" (refl, refl, refl, refl, refl, refl, refl) silent.1.1.1.0
        ∙ simp option_laws,
    get-id_claims "exp" (refl, refl, refl, refl, refl, refl, refl) silent.1.1.1.1.0
        ∙ simp option_laws,
    get-id_claims "nonce" (refl, refl, refl, refl, refl, refl, refl) silent.1.1.1.1.1.0
        ∙ simp option_laws,
    get-id_claims "sid" (refl, refl, refl, refl, refl, refl, refl) silent.1.1.1.1.1.1.0
        ∙ simp option_laws,
    get-id_claims "at_hash" (refl, refl, refl, refl, refl, refl, refl) silent.1.1.1.1.1.1.1.0
        ∙ simp option_laws,
    get-id_claims "c_hash" (refl, refl, refl, refl, refl, refl, refl) silent.1.1.1.1.1.1.1.1.0
        ∙ simp option_laws,
  )
