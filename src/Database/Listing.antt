-- ===== src/Database/Listing.antt =====
-- ListUsers of internal/store/sqlite.go.
pub mod Pages
use Prim.Native.String
use Prim.Native.String.{◌∷◌}
use mathlib.Core.List
use fake_auth.Base.{
  ℕ, zero, ℤ, pos, ◌*ℤ◌, int64, code, String, Bool, ◌||◌, Option, none, some, List, map, ◌==◌, ltb,
  same, positive_or, take, drop, filter, length, if◌then◌else◌,
}
use fake_auth.Text.{trim_prefix}
use fake_auth.Database.{User, UserRow, Db, Engine, text_or_empty}

pub record ListUsersOpts : Type 0 where
  pub page : ℤ
  pub per_page : ℤ
  pub query : String

-- `if n > 100 { n = 100 }` after the default of 50
unfoldable pub page_size : ℤ → ℕ
page_size z = let n = positive_or z 50 in if ltb 100 n then 100 else n

-- OFFSET: the product of two ints, which wraps around; SQLite reads a negative offset as 0.
unfoldable pub offset_of : ℤ → ℕ → ℕ
offset_of page size = positive_or (int64 (page *ℤ pos size)) 0

-- strings.Trim(s, "\"")
trim_left : String → String
trim_left String.[] = ""
trim_left (c ∷ s) = let rest = trim_left s in if same (code c) b'"' then rest else c ∷ s

trim_right : String → String
trim_right String.[] = ""
trim_right (c ∷ s) =
    let rest = trim_right s in
    if same (code c) b'"' then (if rest == "" then "" else c ∷ rest) else c ∷ rest

-- What is searched for; `trim_space` is strings.TrimSpace.
unfoldable pub search_text : (String → String) → String → String
unfolding trim_left trim_right trim_prefix
search_text trim_space given =
    trim_right (trim_left (trim_prefix (trim_space (trim_prefix given "email:")) "\""))

-- The WHERE clause, if there is a text.
unfoldable pub selected : Engine → String → UserRow → Bool
selected engine q r =
    let pattern = String.◌++◌ "%" (String.◌++◌ q "%") in
    engine.like r.email pattern || engine.like r.display_name pattern

unfoldable pub matching : Engine → String → List UserRow → List UserRow
unfolding selected
matching engine q rows = if q == "" then rows else filter (selected engine q) rows

-- The columns that the listing reads; the metadata stay nil.
unfoldable pub listed_user : UserRow → User
listed_user r = record {
  id = r.id;
  email = r.email;
  password_hash = r.password_hash;
  display_name = r.display_name;
  app_metadata = none;
  user_metadata = none;
  organization_id = r.organization_id;
  enterprise_id = r.enterprise_id;
  role = text_or_empty r.role;
}

-- A page of the matching users and their number; `none` is an error. An error of the count is
-- dropped and leaves 0.
unfoldable pub list_users : Engine → (String → String) → Db → ListUsersOpts → Option (List User × ℕ)
unfolding search_text matching listed_user page_size offset_of
list_users engine trim_space db o =
    let q = search_text trim_space o.query in
    let size = page_size o.per_page in
    let rows = matching engine q (engine.newest_first db.users) in
    elim (engine.fault 0) [
      | some e ↦ none
      | none ↦ some (
        map listed_user (take size (drop (offset_of o.page size) rows)),
        elim (engine.fault 1) [ some e ↦ 0 | none ↦ length (matching engine q db.users) ],
      )
    ]
