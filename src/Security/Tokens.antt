-- ===== src/Security/Tokens.antt =====
-- internal/comrad/manager_worker_security.go: the first token of a node is the one that counts.
use text.Mathlib.Text.{starts_with}
use text.Mathlib.TextPositions.{starts_with-append}
use comrad.Prelude.{
  subst, eq_iff, Bool-cases, inl, inr, ◌≡◌, ◌↔◌, refl, String, true, false, ◌||◌, none, arith, ◌==◌,
  eq_refl,
}
use comrad.Prelude.Dict.{get_or, get_or-insert, has_key}
use comrad.Store.{Database}
use comrad.Security.{api_token_hash, authorize_worker_node}

api_token_hash-ne_empty :
    (digest : String → String) (token : String) → (api_token_hash digest token == "") ≡ false
unfolding api_token_hash
api_token_hash-ne_empty digest token =
    let hash = api_token_hash digest token in
    elim (Bool-cases (hash == "")) [
      | inl e ↦
          let empty : hash ≡ "" = ground (arith, e, eq_iff hash "") in
          let start : starts_with "" "sha256:" ≡ true =
            subst (λ x. starts_with x "sha256:" ≡ true) empty
              (starts_with-append "sha256:" (digest token)) in
          absurd (ground (arith, start))
      | inr e ↦ e
    ]

-- A node with an id, of which neither a token hash nor a record is known, is given the fresh token.
-- From then on, a session is that node's exactly if it was before or it provides a token with the
-- same hash; whether it is or not changes nothing in the database.
pub authorize_worker_node-first :
    (digest : String → String) (token session node_id provided : String) (db : Database)
    → (node_id == "") ≡ false
    → get_or "" node_id db.node_token_hashes ≡ ""
    → has_key node_id db.nodes ≡ false
    → (token' session' provided' : String)
    → let given = authorize_worker_node digest token session node_id provided db in
      let later = authorize_worker_node digest token' session' node_id provided' given.0 in
      (given.1 ≡ token)
      × (given.2 ≡ none)
      × ((later.2 ≡ none) ↔ (
          (session' == node_id || api_token_hash digest provided' == api_token_hash digest token)
          ≡ true))
      × (later.0 ≡ given.0)
unfolding authorize_worker_node
authorize_worker_node-first digest token session node_id provided db named unknown new token'
      session' provided' =
    let hash = api_token_hash digest token in
    let up = get_or-insert "" node_id node_id hash db.node_token_hashes in
    let same = eq_refl node_id in
    let strong = api_token_hash-ne_empty digest token in
    rw (unknown, named, new) (rw (up, same, strong) (refl, refl, ground arith, ground arith))
