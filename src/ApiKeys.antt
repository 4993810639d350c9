-- ===== src/ApiKeys.antt =====
-- API keys of clients: internal/comrad/identity.go and manager_accounting_admin.go. The random token
-- and id, and the hexadecimal SHA-256 digest, are arguments. A token is stored as its hash only.
pub mod Issued
use comrad.Prelude.{
  String, Bool, true, false, not, ◌&&◌, ◌||◌, List, [], ◌∷◌, Option, none, some, ◌==◌,
  if◌then◌else◌,
}
use comrad.Prelude.Dict.{Dict, lookup, get_or, has_key, insert, values}
use comrad.Types.{
  Time, User, ApiKey, Error, zero_api_key, zero_user, user_not_found, token_required,
  api_key_not_found, api_key_missing, unauthorized,
}
use comrad.Store.{Database, add_audit}
use comrad.Security.{api_token_hash}

abbrev pub key_is_active : String
key_is_active = "active"

abbrev pub key_is_revoked : String
key_is_revoked = "revoked"

abbrev pub default_client_user_id : String
default_client_user_id = "user_configured_client"

abbrev pub configured_key_id : String
configured_key_id = "key_configured_client"

pub record IssueApiKeyRequest : Type 0 where
  pub user_id : String
  pub name : String

pub record ApiKeyView : Type 0 where
  pub id : String
  pub user_id : String
  pub name : String
  pub status : String
  pub created_at : Time
  pub revoked_at : Option Time
  pub last_used_at : Option Time

unfoldable pub api_key_view : ApiKey → ApiKeyView
api_key_view key = record {
  id = key.id;
  user_id = key.user_id;
  name = key.name;
  status = key.status;
  created_at = key.created_at;
  revoked_at = key.revoked_at;
  last_used_at = key.last_used_at;
}

is_set : Option Time → Bool
is_set none = false
is_set (some t) = true

-- The key counts for the hash.
unfoldable pub is_active_for : String → ApiKey → Bool
unfolding is_set
is_active_for hash key =
    not (not (key.token_hash == hash) || not (key.status == key_is_active) || is_set key.revoked_at)

-- The loop of `activeAPIKeyForHash`, from the key that it has found.
unfoldable pub active_from : String → ApiKey → List ApiKey → ApiKey × Bool
active_from hash found [] = (found, not (found.id == ""))
active_from hash found (key ∷ keys) =
    let skip = active_from hash found keys in
    let take = active_from hash key keys in
    if not (is_active_for hash key)
    then skip
    else if not (found.id == "")
    then (zero_api_key, false)
    else take

unfoldable pub active_api_key_for_hash : Database → String → ApiKey × Bool
active_api_key_for_hash db hash = active_from hash zero_api_key (values db.api_keys)

unfoldable pub api_key_user_id : Database → String → String
api_key_user_id db hash =
    let (key, ok) = active_api_key_for_hash db hash in if ok then key.user_id else ""

module _ (digest : String → String) where
  -- `newIssuedAPIKey`, with the token and the id that it draws.
  unfoldable pub new_issued_api_key : String → String → IssueApiKeyRequest → Time → ApiKey
  new_issued_api_key token fresh req now = record {
    id = fresh;
    user_id = req.user_id;
    name = if req.name == "" then fresh else req.name;
    token_hash = api_token_hash digest token;
    status = key_is_active;
    created_at = now;
    revoked_at = none;
    last_used_at = none;
  }

  -- The answer about an active key, or the error.
  lookup_user : ApiKey × Bool → Database → Option (ApiKeyView × User) × Option Error
  lookup_user (key, false) db = (none, some api_key_not_found)
  lookup_user (key, true) db =
      if has_key key.user_id db.users
      then (some (api_key_view key, get_or zero_user key.user_id db.users), none)
      else (none, some (user_not_found key.user_id))

  unfoldable pub lookup_api_key : String → Database → Option (ApiKeyView × User) × Option Error
  unfolding lookup_user
  lookup_api_key token db =
      if token == ""
      then (none, some token_required)
      else lookup_user (active_api_key_for_hash db (api_token_hash digest token)) db

  authenticated : ApiKey × Bool → Time → Database → Database × Option User
  authenticated (key, false) now db = (db, none)
  authenticated (key, true) now db =
      let user = get_or zero_user key.user_id db.users in
      if not (has_key key.user_id db.users) || user.disabled then (db, none) else (
        record db { api_keys = insert key.id (record key { last_used_at = some now }) db.api_keys },
        some user,
      )

  -- `authenticateClient`, on the token of the request.
  unfoldable pub authenticate_client : String → Time → Database → Database × Option User
  unfolding authenticated
  authenticate_client token now db =
      if token == ""
      then (db, none)
      else authenticated (active_api_key_for_hash db (api_token_hash digest token)) now db

  configured_user : Time → User
  configured_user now = record {
    id = default_client_user_id;
    name = "Configured API client";
    compute_balance = 0;
    disabled = false;
    created_at = now;
  }

  -- `ensureConfiguredClientKey`, on the key of the configuration.
  unfoldable pub ensure_configured_client_key : String → Time → Database → Database
  unfolding configured_user
  ensure_configured_client_key configured now db =
      let hash = api_token_hash digest configured in
      let users =
        if has_key default_client_user_id db.users
        then db.users
        else insert default_client_user_id (configured_user now) db.users in
      let key = record zero_api_key {
        id = configured_key_id;
        user_id = default_client_user_id;
        name = "Configured API key";
        token_hash = hash;
        status = key_is_active;
        created_at = now;
      } in
      if configured == "" || not (api_key_user_id db hash == "")
      then db
      else record db { users = users; api_keys = insert configured_key_id key db.api_keys }

unfoldable pub store_api_key : ApiKey → Database → Database × Option Error
store_api_key key db =
    if not (has_key key.user_id db.users) then (db, some (user_not_found key.user_id)) else (
      add_audit "api_key.issued" "admin" key.id key.created_at
          (record db { api_keys = insert key.id key db.api_keys }),
      none,
    )

unfoldable pub revoke_api_key : String → Time → Database → Database × Option Error
revoke_api_key id now db =
    let key = get_or zero_api_key id db.api_keys in
    if not (has_key id db.api_keys) then (db, some (api_key_missing id)) else (
      add_audit "api_key.revoked" "admin" key.id now (record db {
        api_keys =
            insert key.id (record key { status = key_is_revoked; revoked_at = some now })
              db.api_keys;
      }),
      none,
    )
