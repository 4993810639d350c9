-- ===== src/ApiKeys/Issued.antt =====
-- internal/comrad/identity.go: a key opens its user's account from its issue to its revocation.
use comrad.Prelude.{
  ◌≡◌, refl, String, true, false, not, List, [], ◌∷◌, none, some, arith, any, ◌==◌, eq_refl,
  if◌then◌else◌, Bool-cases, inl, inr,
}
use comrad.Prelude.Dict.{
  Dict, get_or, has_key, insert, values, lookup-insert, insert_twice, has_key_of_insert,
}
use comrad.Types.{Time, ApiKey, zero_api_key, zero_user, api_key_not_found}
use comrad.Store.{Database, add_audit}
use comrad.Security.{api_token_hash}
use comrad.ApiKeys.{
  IssueApiKeyRequest, api_key_view, is_active_for, is_set, active_from, active_api_key_for_hash,
  new_issued_api_key, lookup_api_key, lookup_user, authenticate_client, authenticated,
  store_api_key, revoke_api_key, key_is_revoked,
}

active_from_idle :
    (hash : String) (found : ApiKey) (keys : List ApiKey)
    → any (is_active_for hash) keys ≡ false
    → active_from hash found keys ≡ (found, not (found.id == ""))
unfolding active_from
active_from_idle hash found [] h = refl
active_from_idle hash found (key ∷ keys) h = ground (arith, active_from_idle hash found keys)

-- Among keys that do not count, the one that is put there is found.
active_from-insert :
    (hash id : String) (key : ApiKey) (m : Dict ApiKey)
    → any (is_active_for hash) (values m) ≡ false
    → is_active_for hash key ≡ true
    → (key.id == "") ≡ false
    → active_from hash zero_api_key (values (insert id key m)) ≡ (key, true)
unfolding active_from values insert
active_from-insert hash id key [] h a named = rw (a, named) refl
active_from-insert hash id key ((j, w) ∷ m) h a named = elim (Bool-cases (j == id)) [
  | inl e ↦ rw (e, a, active_from_idle hash key (values m) (ground (arith, h)), named) refl
  | inr e ↦
      let skip : is_active_for hash w ≡ false = ground (arith, h) in
      rw (e, skip, active_from-insert hash id key m (ground (arith, h)) a named) refl
]

any_idle-insert :
    (hash id : String) (key : ApiKey) (m : Dict ApiKey)
    → any (is_active_for hash) (values m) ≡ false
    → is_active_for hash key ≡ false
    → any (is_active_for hash) (values (insert id key m)) ≡ false
unfolding values insert
any_idle-insert hash id key [] h a = ground (arith, a)
any_idle-insert hash id key ((j, w) ∷ m) h a = elim (Bool-cases (j == id)) [
  | inl e ↦ rw e (ground (arith, h, a))
  | inr e ↦ rw e (ground (arith, h, any_idle-insert hash id key m))
]

module _ (digest : String → String) where
  -- What a token opens while its hash has one active key, and what while it has none.
  opens :
      (token : String) (key : ApiKey) (now : Time) (db : Database)
      → (token == "") ≡ false
      → active_from (api_token_hash digest token) zero_api_key (values db.api_keys) ≡ (key, true)
      → has_key key.user_id db.users ≡ true
      → let user = get_or zero_user key.user_id db.users in
        (lookup_api_key digest token db ≡ (some (api_key_view key, user), none))
        × ((authenticate_client digest token now db).1
            ≡ (if user.disabled then none else some user))
  unfolding lookup_api_key lookup_user authenticate_client authenticated active_api_key_for_hash
  opens token key now db given found owned =
      let user = get_or zero_user key.user_id db.users in
      rw (given, found, owned)
        (refl, elim (Bool-cases user.disabled) [ inl e ↦ rw e refl | inr e ↦ rw e refl ])

  closed :
      (token : String) (now : Time) (db : Database)
      → (token == "") ≡ false
      → any (is_active_for (api_token_hash digest token)) (values db.api_keys) ≡ false
      → (lookup_api_key digest token db ≡ (none, some api_key_not_found))
        × ((authenticate_client digest token now db).1 ≡ none)
  unfolding lookup_api_key lookup_user authenticate_client authenticated active_api_key_for_hash
  closed token now db given idle =
      rw
        (
          given,
          active_from_idle (api_token_hash digest token) zero_api_key (values db.api_keys) idle,
        )
        (refl, refl)

  -- A key that is issued for a user is stored, and its token finds the key and the user; the token
  -- opens the account unless the user is disabled; and once the key is revoked, the token finds
  -- nothing and opens nothing. Before, no active key has the token's hash; the token and the key's id
  -- are not empty.
  pub new_issued_api_key-revoke :
      (token fresh : String) (req : IssueApiKeyRequest) (now later : Time) (db : Database)
      → (token == "") ≡ false
      → (fresh == "") ≡ false
      → has_key req.user_id db.users ≡ true
      → any (is_active_for (api_token_hash digest token)) (values db.api_keys) ≡ false
      → let key = new_issued_api_key digest token fresh req now in
        let user = get_or zero_user req.user_id db.users in
        let (issued, err) = store_api_key key db in
        let (revoked, err') = revoke_api_key fresh later issued in
        (err ≡ none)
        × (lookup_api_key digest token issued ≡ (some (api_key_view key, user), none))
        × ((authenticate_client digest token later issued).1
            ≡ (if user.disabled then none else some user))
        × (err' ≡ none)
        × (lookup_api_key digest token revoked ≡ (none, some api_key_not_found))
        × ((authenticate_client digest token later revoked).1 ≡ none)
  unfolding new_issued_api_key is_active_for is_set store_api_key revoke_api_key get_or
  new_issued_api_key-revoke token fresh req now later db given named owned idle =
      let hash = api_token_hash digest token in
      let key = new_issued_api_key digest token fresh req now in
      let gone = record key { status = key_is_revoked; revoked_at = some later } in
      let db1 =
        add_audit "api_key.issued" "admin" fresh now
          (record db { api_keys = insert fresh key db.api_keys }) in
      let db2 =
        add_audit "api_key.revoked" "admin" fresh later
          (record db1 { api_keys = insert fresh gone db.api_keys }) in
      let active : is_active_for hash key ≡ true = ground (arith, eq_refl hash) in
      let inactive : is_active_for hash gone ≡ false = ground arith in
      let (found, opened) =
        opens token key later db1 given
          (active_from-insert hash fresh key db.api_keys idle active named) owned in
      let (missing, shut) =
        closed token later db2 given (any_idle-insert hash fresh gone db.api_keys idle inactive) in
      let issue : store_api_key key db ≡ (db1, none) = rw owned refl in
      let revoke : revoke_api_key fresh later db1 ≡ (db2, none) =
        rw
          (
            has_key_of_insert fresh key db.api_keys,
            lookup-insert fresh fresh key db.api_keys,
            eq_refl fresh,
            insert_twice fresh gone key db.api_keys,
          )
          refl in
      rw (issue, revoke) (refl, found, opened, refl, missing, shut)
