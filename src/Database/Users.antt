-- ===== src/Database/Users.antt =====
-- Creating users and finding them again.
use Prim.Native.String
use fake_auth.Base.{
  String, ◌≡◌, refl, ap, ◌∙◌, ◌≢◌, ◌⊎◌, inl, inr, Bool, true, false, Option, none, some, [], ◌∷◌,
  ◌++◌, arith, eq_refl, Bool-cases, Option-cases, if◌then◌else◌, eq_of_ne,
}
use fake_auth.Dict.{Dict}
use fake_auth.Json.{Value}
use fake_auth.Table.{
  exists, find-append, find-eq-none_of_exists, IsUnique, Fresh-exists, IsUnique-append,
}
use fake_auth.Database.{
  User, UserRow, Db, Engine, Bcrypt, Codec, found, fetched, email_is, id_is, get_by_email,
  get_by_id, insert_user_role, insert_user, after_insert, create_hashed, create_user, row_of_user,
  user_of_row, default_role_id, parse_json_map, json_bytes,
}

pub insert_user_role-users :
    (e : Option String) (user_id role_id : String) (db : Db)
    → (insert_user_role e user_id role_id db).0.users ≡ db.users
unfolding insert_user_role
insert_user_role-users (some e) user_id role_id db = refl
insert_user_role-users none user_id role_id db = ground arith

after_insert-ok :
    (engine : Engine) (u : User) (r : Db × Option String)
    → r.1 ≡ none
    → ((after_insert engine u r).1 ≡ none) × ((after_insert engine u r).0.users ≡ r.0.users)
unfolding after_insert
after_insert-ok engine u (db, some e) h = cc
after_insert-ok engine u (db, none) h =
    (refl, insert_user_role-users (engine.fault 1) u.id (default_role_id u.role) db)

after_insert-users :
    (engine : Engine) (u : User) (r : Db × Option String)
    → (after_insert engine u r).0.users ≡ r.0.users
unfolding after_insert
after_insert-users engine u (db, some e) = refl
after_insert-users engine u (db, none) =
    insert_user_role-users (engine.fault 1) u.id (default_role_id u.role) db

-- An insertion that no error stops appends the row.
insert_user-new :
    (engine : Engine) (e : Option String) (row : UserRow) (db : Db)
    → e ≡ none
    → exists (id_is row.id) db.users ≡ false
    → exists (email_is row.email) db.users ≡ false
    → insert_user engine e row db ≡ (record db { users = db.users ++ row ∷ [] }, none)
unfolding insert_user
insert_user-new engine none row db h new_id new_email = rw (new_id, new_email) refl
insert_user-new engine (some e) row db h new_id new_email = cc

-- No row has the id, and none the address.
abbrev pub IsNew : User → Db → Type 0
IsNew u db = (exists (id_is u.id) db.users ≡ false) × (exists (email_is u.email) db.users ≡ false)

module _ (engine : Engine) (bcrypt : Bcrypt) (codec : Codec) (u : User) (password : String)
    (db : Db) where
  users-create_user :
      (hash : String)
      → bcrypt.generate password ≡ some hash
      → engine.fault 0 ≡ none
      → IsNew u db
      → ((create_user engine bcrypt codec u password db).1 ≡ none)
        × ((create_user engine bcrypt codec u password db).0.users
            ≡ db.users ++ row_of_user codec u hash ∷ [])
  unfolding create_user create_hashed
  users-create_user hash hashed healthy (new_id, new_email) =
      let row = row_of_user codec u hash in
      let e =
        insert_user-new engine (engine.fault 0) row db healthy (unfold row_of_user in new_id)
          (unfold row_of_user in new_email) in
      let inserted = insert_user engine (engine.fault 0) row db in
      let (fine, users) =
        after_insert-ok engine u inserted (ap (λ (r : Db × Option String). r.1) e) in
      rw (hashed, create_hashed) (fine, users ∙ ap (λ (r : Db × Option String). r.0.users) e)

  -- When the password can be hashed and the engine answers, a user whose id or address is taken is
  -- refused with the error of one of the two constraints, and nothing is stored.
  pub create_user_taken :
      (hash : String)
      → bcrypt.generate password ≡ some hash
      → engine.fault 0 ≡ none
      → (exists (id_is u.id) db.users ≡ true) ⊎ (exists (email_is u.email) db.users ≡ true)
      → ((create_user engine bcrypt codec u password db).0 ≡ db)
        × (((create_user engine bcrypt codec u password db).1
              ≡ some (String.◌++◌ "create user: " (engine.unique_error "users.id")))
            ⊎ ((create_user engine bcrypt codec u password db).1
                ≡ some (String.◌++◌ "create user: " (engine.unique_error "users.email"))))
  unfolding create_user create_hashed insert_user after_insert row_of_user
  create_user_taken hash hashed healthy taken =
      rw (hashed, create_hashed, healthy, insert_user)
        (elim (Bool-cases (exists (id_is u.id) db.users)) [
          | inl old ↦ rw old (refl, inl refl)
          | inr new_id ↦ elim (Bool-cases (exists (email_is u.email) db.users)) [
            | inl old ↦ rw (new_id, old) (refl, inr refl)
            | inr new_email ↦ absurd (elim taken [ inl t ↦ cc | inr t ↦ cc ])
          ]
        ])

-- What the program relies on of encoding/json: an object is written as a text that is not empty and
-- reads back as itself, and `{}` reads as the empty object.
abbrev pub IsFaithful : Codec → Option (Dict Value) → Type 0
IsFaithful codec none = codec.unmarshal "{}" ≡ some (some [])
IsFaithful codec (some m) =
    (codec.marshal m ≢ "") × (codec.unmarshal (codec.marshal m) ≡ some (some m))

-- Metadata as it comes back: nil as the empty object.
abbrev pub stored_metadata : Option (Dict Value) → Option (Dict Value)
stored_metadata none = some []
stored_metadata (some m) = some m

parse-json_bytes :
    (codec : Codec) (m : Option (Dict Value)) (f : IsFaithful codec m)
    → parse_json_map codec (some (json_bytes codec m)) ≡ stored_metadata m
unfolding parse_json_map json_bytes
parse-json_bytes codec none f = rw f refl
parse-json_bytes codec (some m) (written, round_trip) =
    rw (eq_of_ne (codec.marshal m) "" written, round_trip) refl

-- The user as it is read back.
abbrev pub read_back : User → String → User
read_back u hash = record u {
  password_hash = hash;
  app_metadata = stored_metadata u.app_metadata;
  user_metadata = stored_metadata u.user_metadata;
}

user_of_row_of_user :
    (codec : Codec) (u : User) (hash : String)
    → IsFaithful codec u.app_metadata
    → IsFaithful codec u.user_metadata
    → user_of_row codec (row_of_user codec u hash) ≡ read_back u hash
unfolding user_of_row row_of_user
user_of_row_of_user codec u hash app user =
    rw (parse-json_bytes codec u.app_metadata app, parse-json_bytes codec u.user_metadata user) refl

fetched-own :
    (codec : Codec) (e : Option String) (o : Option UserRow) (row : UserRow) (b : Bool)
    → e ≡ none
    → o ≡ (if b then some row else none)
    → b ≡ true
    → fetched codec e o ≡ found (user_of_row codec row)
unfolding fetched
fetched-own codec e o row b healthy present own = rw (healthy, present, own, fetched) refl

own_email :
    (codec : Codec) (u : User) (hash : String) → email_is u.email (row_of_user codec u hash) ≡ true
unfolding row_of_user
own_email codec u hash = eq_refl u.email

own_id : (codec : Codec) (u : User) (hash : String) → id_is u.id (row_of_user codec u hash) ≡ true
unfolding row_of_user
own_id codec u hash = eq_refl u.id

-- When neither the id nor the address is taken, the password can be hashed, the codec reads back
-- the metadata that it wrote, and the engine stores the row and answers the query, a user that was
-- created is found by its address and by its id, with the fields that were given, the hash of the
-- password, and nil metadata as the empty object.
pub get-create_user :
    (engine reading : Engine) (bcrypt : Bcrypt) (codec : Codec) (u : User) (password hash : String)
    (db : Db)
    → IsFaithful codec u.app_metadata
    → IsFaithful codec u.user_metadata
    → bcrypt.generate password ≡ some hash
    → engine.fault 0 ≡ none
    → reading.fault 0 ≡ none
    → IsNew u db
    → let after = (create_user engine bcrypt codec u password db).0 in
      (get_by_email reading codec after u.email ≡ found (read_back u hash))
      × (get_by_id reading codec after u.id ≡ found (read_back u hash))
unfolding get_by_email get_by_id
get-create_user engine reading bcrypt codec u password hash db app user hashed healthy answers new =
    let row = row_of_user codec u hash in
    let users = (users-create_user engine bcrypt codec u password db hash hashed healthy new).1 in
    let by_email = find-append (email_is u.email) db.users row (find-eq-none_of_exists _ _ new.1) in
    let by_id = find-append (id_is u.id) db.users row (find-eq-none_of_exists _ _ new.0) in
    let back = user_of_row_of_user codec u hash app user in
    (
      fetched-own codec _ _ row _ answers (rw users by_email) (own_email codec u hash)
          ∙ ap found back,
      fetched-own codec _ _ row _ answers (rw users by_id) (own_id codec u hash) ∙ ap found back,
    )

-- No two users share an id or an address.
abbrev pub IsConsistent : Db → Type 0
IsConsistent db =
    IsUnique (λ (r : UserRow). r.id) db.users × IsUnique (λ (r : UserRow). r.email) db.users

insert_user-IsConsistent :
    (engine : Engine) (e : Option String) (row : UserRow) (db : Db)
    → IsConsistent db
    → IsConsistent (insert_user engine e row db).0
unfolding insert_user
insert_user-IsConsistent engine (some e) row db h = h
insert_user-IsConsistent engine none row db h = elim (Bool-cases (exists (id_is row.id) db.users)) [
  | inl old ↦ rw old h
  | inr new_id ↦ elim (Bool-cases (exists (email_is row.email) db.users)) [
    | inl old ↦ rw (new_id, old) h
    | inr new_email ↦
        rw (new_id, new_email)
          (
            IsUnique-append _ db.users row h.0 (Fresh-exists _ row.id db.users new_id),
            IsUnique-append _ db.users row h.1 (Fresh-exists _ row.email db.users new_email),
          )
  ]
]

-- Creating a user, whether it succeeds or fails, keeps ids and addresses unique.
pub create_user-IsConsistent :
    (engine : Engine) (bcrypt : Bcrypt) (codec : Codec) (u : User) (password : String) (db : Db)
    → IsConsistent db
    → IsConsistent (create_user engine bcrypt codec u password db).0
unfolding create_user create_hashed
create_user-IsConsistent engine bcrypt codec u password db h =
    elim (Option-cases (bcrypt.generate password)) [
      | inl refused ↦ rw (refused, create_hashed) h
      | inr (hash, hashed) ↦
          rw (hashed, create_hashed, after_insert-users engine u)
            (insert_user-IsConsistent engine (engine.fault 0) (row_of_user codec u hash) db h)
    ]
