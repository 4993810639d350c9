-- ===== src/Security.antt =====
-- internal/comrad/manager_worker_security.go: which node a worker's session may speak for, and
-- `apiTokenHash` of internal/comrad/identity.go. The hexadecimal SHA-256 digest, of Go's library, is
-- a parameter.
pub mod Tokens
use comrad.Prelude.{
  String, Bool, true, false, not, ◌&&◌, ◌||◌, Option, none, some, ◌==◌, if◌then◌else◌,
}
use comrad.Prelude.Dict.{get_or, has_key, insert}
use comrad.Types.{
  Error, session_not_registered, node_mismatch, node_id_required, node_token_missing,
  node_token_required,
}
use comrad.Store.{Database}
use Prim.Native.String

-- `validateWorkerEnvelopeSession`, on the message's type and node and the session's node.
unfoldable pub validate_worker_envelope_session : String → String → String → Option Error
validate_worker_envelope_session session_node kind node =
    if kind == "worker.hello" || kind == "worker.full_state"
    then none
    else if session_node == ""
    then some session_not_registered
    else if not (node == "") && not (node == session_node)
    then some (node_mismatch node session_node)
    else none

module _ (digest : String → String) where
  unfoldable pub api_token_hash : String → String
  api_token_hash token = String.◌++◌ "sha256:" (digest token)

  -- The database, the token that is given out, and the error. `token` is the one that `NewID` gives.
  unfoldable pub authorize_worker_node :
      String → String → String → String → Database → Database × String × Option Error
  authorize_worker_node token session_node node_id provided db =
      let stored = get_or "" node_id db.node_token_hashes in
      if node_id == ""
      then (db, "", some node_id_required)
      else if stored == ""
      then (if has_key node_id db.nodes then (db, "", some (node_token_missing node_id)) else (
        record db {
          node_token_hashes = insert node_id (api_token_hash token) db.node_token_hashes;
        },
        token,
        none,
      ))
      else if session_node == node_id
      then (db, "", none)
      else if not (api_token_hash provided == stored)
      then (db, "", some (node_token_required node_id))
      else (db, "", none)
