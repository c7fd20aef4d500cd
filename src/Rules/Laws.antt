-- ===== src/Rules/Laws.antt =====
-- What rules can and cannot do to a user.
use fake_auth.Base.{◌≡◌, some, [], or_else}
use fake_auth.Dict.{get-put}
use fake_auth.Json.{to_dict-of_dict}
use fake_auth.Rules.{User, user_to_map, map_to_user}

-- A nil map comes back as the empty one.
abbrev pub filled : User → User
filled u = record u {
  user_metadata = some (or_else u.user_metadata []);
  app_metadata = some (or_else u.app_metadata []);
  id_token_claims = some (or_else u.id_token_claims []);
  access_token_claims = some (or_else u.access_token_claims []);
}

-- A script that hands back the user as it got it changes nothing but nil maps, which come back
-- empty.
pub map_to_user-user_to_map : (u : User) → map_to_user (user_to_map u) ≡ filled u
unfolding map_to_user user_to_map
map_to_user-user_to_map u = simp (get-put, to_dict-of_dict)
