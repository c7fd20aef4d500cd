-- ===== src/Database/Listing/Pages.antt =====
-- Which users a page holds.
use Prim.Native.String
use fake_auth.Base.{
  ℕ, zero, suc, ◌+◌, ◌*◌, ◌^◌, ◌%◌, ◌<◌, ◌≤◌, ℤ, pos, negsuc, int64, String, Bool, true, false,
  ◌||◌, ◌≡◌, refl, ap, sym, ◌∙◌, ◌⊎◌, inl, inr, Option, none, some, List, [], ◌∷◌, map, ◌==◌, ltb,
  length, take, drop, filter, positive_or, arith, Bool-cases, if◌then◌else◌,
}
use fake_auth.Database.{User, UserRow, Db, Engine, text_or_empty}
use fake_auth.Database.Listing.{
  ListUsersOpts, page_size, offset_of, search_text, selected, matching, listed_user, list_users,
}

-- The element at a position.
abbrev pub get_elem? {ℓ} : {A : Type ℓ} → List A → ℕ → Option A
get_elem? [] k = none
get_elem? (x ∷ xs) zero = some x
get_elem? (x ∷ xs) (suc k) = get_elem? xs k

-- How many users a page is to hold: as many as are asked for, at most 100, and 50 without a
-- positive number.
abbrev pub IsSize : ℤ → ℕ → Type 0
IsSize (pos zero) n = n ≡ 50
IsSize (pos (suc m)) n = ((m < 100) × (n ≡ suc m)) ⊎ ((100 ≤ m) × (n ≡ 100))
IsSize (negsuc m) n = n ≡ 50

-- The text stands in the address or in the name; the empty text stands in every row.
abbrev pub sought : Engine → String → UserRow → Bool
sought engine q r =
    q == ""
    || engine.like r.email (String.◌++◌ "%" (String.◌++◌ q "%"))
    || engine.like r.display_name (String.◌++◌ "%" (String.◌++◌ q "%"))

-- What is shown of a row: all but the metadata.
abbrev pub shown : Option UserRow → Option User
shown none = none
shown (some r) = some (record {
  id = r.id;
  email = r.email;
  password_hash = r.password_hash;
  display_name = r.display_name;
  app_metadata = none;
  user_metadata = none;
  organization_id = r.organization_id;
  enterprise_id = r.enterprise_id;
  role = text_or_empty r.role;
})

get_elem?-listed :
    (rs : List UserRow) (k : ℕ) → get_elem? (map listed_user rs) k ≡ shown (get_elem? rs k)
unfolding listed_user
get_elem?-listed [] k = refl
get_elem?-listed (r ∷ rs) zero = refl
get_elem?-listed (r ∷ rs) (suc k) = get_elem?-listed rs k

get_elem?-take :
    (n : ℕ) (rs : List UserRow) (k : ℕ)
    → get_elem? (take n rs) k ≡ (if ltb k n then get_elem? rs k else none)
get_elem?-take zero rs k = ground arith
get_elem?-take (suc n) [] k = ground arith
get_elem?-take (suc n) (r ∷ rs) zero = ground arith
get_elem?-take (suc n) (r ∷ rs) (suc k) = ground (arith, get_elem?-take n rs k)

get_elem?-drop :
    (n : ℕ) (rs : List UserRow) (k : ℕ) → get_elem? (drop n rs) k ≡ get_elem? rs (n + k)
get_elem?-drop zero rs k = let e : 0 + k ≡ k = omega arith in rw e refl
get_elem?-drop (suc n) [] k = refl
get_elem?-drop (suc n) (r ∷ rs) k =
    let e : suc n + k ≡ suc (n + k) = omega arith in rw e (get_elem?-drop n rs k)

if-shown :
    (b : Bool) (o : Option UserRow) → shown (if b then o else none) ≡ (if b then shown o else none)
if-shown true o = refl
if-shown false o = refl

filter-same :
    (p q : UserRow → Bool)
    → ((r : UserRow) → p r ≡ q r)
    → (rs : List UserRow) → filter p rs ≡ filter q rs
filter-same p q same [] = refl
filter-same p q same (r ∷ rs) = rw (same r, filter-same p q same rs) refl

filter-all : (rs : List UserRow) → filter (λ r. true) rs ≡ rs
filter-all [] = refl
filter-all (r ∷ rs) = ap (λ xs. r ∷ xs) (filter-all rs)

matching-sought :
    (engine : Engine) (q : String) (rs : List UserRow)
    → matching engine q rs ≡ filter (sought engine q) rs
unfolding matching selected
matching-sought engine q rs = elim (Bool-cases (q == "")) [
  | inl empty ↦
      rw (empty, matching)
        (sym (filter-same (sought engine q) (λ r. true) (λ r. rw empty refl) rs ∙ filter-all rs))
  | inr given ↦
      rw (given, matching)
        (sym (filter-same (sought engine q) (selected engine q) (λ r. rw given refl) rs))
]

page_size-IsSize : (z : ℤ) (n : ℕ) → IsSize z n → page_size z ≡ n
unfolding page_size
page_size-IsSize (pos zero) n h = sym h
page_size-IsSize (pos (suc m)) n (inl (few, e)) = ground arith
page_size-IsSize (pos (suc m)) n (inr (many, e)) = ground arith
page_size-IsSize (negsuc m) n h = sym h

positive_or-zero : (m : ℕ) → positive_or (pos m) 0 ≡ m
positive_or-zero zero = refl
positive_or-zero (suc m) = refl

int64-small : (m : ℕ) → m < 2 ^ 63 → int64 (pos m) ≡ pos m
int64-small m small = let fits : m % 2 ^ 64 ≡ m = omega arith in rw fits (ground arith)

offset_of-pos : (page n : ℕ) → page * n < 2 ^ 63 → offset_of (pos page) n ≡ page * n
unfolding offset_of
offset_of-pos page n small =
    ap (λ z. positive_or z 0) (int64-small (page * n) small) ∙ positive_or-zero (page * n)

-- Without an error of the engine, page number p of the users, counted from 0 and with n users to a
-- page, is the users at the positions p * n to p * n + n - 1 of those whose address or name matches
-- the text that search_text makes of the query, from the newest on, as long as p * n is an int; n is
-- the number asked for, at most 100, and 50 if it is not positive. The total is the number of users
-- that match.
pub list_users_lem :
    (engine : Engine) (trim_space : String → String) (db : Db) (o : ListUsersOpts) (page n : ℕ)
    → o.page ≡ pos page
    → IsSize o.per_page n
    → page * n < 2 ^ 63
    → engine.fault 0 ≡ none
    → engine.fault 1 ≡ none
    → let q = search_text trim_space o.query in
      (users : List User) × (total : ℕ) × (list_users engine trim_space db o ≡ some (users, total))
      × ((k : ℕ)
          → get_elem? users k ≡ (
              if ltb k n
              then shown (
                  get_elem?
                    (filter (sought engine q) (engine.newest_first db.users))
                    (page * n + k))
              else none))
      × (total ≡ length (filter (sought engine q) db.users))
unfolding list_users
list_users_lem engine trim_space db o page n at size small read counted =
    let q = search_text trim_space o.query in
    let rows = filter (sought engine q) (engine.newest_first db.users) in
    (
      map listed_user (take n (drop (page * n) rows)),
      length (filter (sought engine q) db.users),
      rw
          (
            read,
            counted,
            at,
            list_users,
            page_size-IsSize o.per_page n size,
            offset_of-pos page n small,
            matching-sought engine q (engine.newest_first db.users),
            matching-sought engine q db.users,
          )
          refl,
      (λ k.
          get_elem?-listed (take n (drop (page * n) rows)) k
          ∙ rw (get_elem?-take n (drop (page * n) rows) k, get_elem?-drop (page * n) rows k)
              (if-shown (ltb k n) (get_elem? rows (page * n + k)))),
      refl,
    )
