-- ===== src/Scenarios/Accounts.antt =====
-- The theorems on accounts and the store, applied.
use comrad.Prelude.{
  false, true, ◌≡◌, ◌↔◌, ◌+◌, ◌%◌, ◌≤◌, refl, true, [], ◌∷◌, none, some, arith, eq_iff, word,
  IsNatural,
}
use comrad.Prelude.Dict.{map_values, lookup, insert, has_key, get_or, values}
use comrad.Types.{zero_user}
use comrad.Store.JsonFile.{JsonCodec, json_file_backend, save_file}
use comrad.Store.{persisted, Database, Change, Store, empty_database, update, open_store, add_audit}
use comrad.Store.Durability.{open_store-update}
use comrad.Accounting.{
  CreateUserRequest, new_user, create_user, charge, ensure_sufficient_available_balance,
}
use comrad.Accounting.Books.{Books}
use comrad.Accounting.Users.{AccountHistory, AccountStep, AccountHistory-Books}
use comrad.Accounting.Reports.{charge_twice}
use comrad.Accounting.Conserved.{total, total-charge, open_cost, ensure_sufficient_iff}
use comrad.Scenarios.{base, gpu_node, finished, site}

abbrev alice : CreateUserRequest
alice = record { id = "alice"; name = "Alice" }

abbrev bob : CreateUserRequest
bob = record { id = "bob"; name = "" }

abbrev with_alice : Database
with_alice = (create_user (new_user "usr1" 1 alice) empty_database).0

abbrev with_bob : Database
with_bob = (create_user (new_user "usr2" 2 bob) with_alice).0

-- Two users, and a node that the second one owns.
abbrev market : Database
market = record with_bob { nodes = ("n1", gpu_node) ∷ [] }

market_history : AccountHistory empty_database market
market_history =
    AccountHistory.next
      (AccountHistory.next
        (AccountHistory.next AccountHistory.here (
          AccountStep.creates "usr1" 1 alice empty_database
            (λ e. ground (arith, e, eq_iff "usr1" ""))))
        (AccountStep.creates "usr2" 2 bob with_alice (λ e. ground (arith, e, eq_iff "usr2" ""))))
      (AccountStep.elsewhere with_bob market refl refl)

AccountHistory-Books_example : Books market
AccountHistory-Books_example = AccountHistory-Books market_history

charge_twice_example :
    charge "f2" "g2" 8 (charge "f1" "g1" 7 market finished 7) finished 8
    ≡ charge "f1" "g1" 7 market finished 7
charge_twice_example = charge_twice "f1" "g1" "f2" "g2" 7 7 8 8 market finished

total-charge_example :
    total (charge "f1" "g1" 7 market finished 7).users % word ≡ total market.users % word
unfolding create_user new_user has_key lookup insert empty_database get_or
total-charge_example =
    total-charge "f1" "g1" 7 7 market finished (AccountHistory-Books market_history) refl refl refl

abbrev rich : Database
rich = record site {
  users = ("alice", record zero_user { id = "alice"; compute_balance = 12 }) ∷ [];
}

rich_covered : IsNatural (7 + open_cost "alice" (values rich.tasks))
unfolding open_cost values
rich_covered = ground arith

ensure_sufficient_iff_example :
    let balance = (get_or zero_user "alice" rich.users).compute_balance in
    (ensure_sufficient_available_balance rich "alice" 7 true ≡ none)
    ↔ (IsNatural balance × (7 + open_cost "alice" (values rich.tasks) ≤ balance))
unfolding values get_or lookup open_cost
ensure_sufficient_iff_example =
    ensure_sufficient_iff rich "alice" 7 (ground arith) rich_covered (ground arith) (ground arith)

-- Texts that are what a database leaves, none of them empty.
abbrev plain_json : JsonCodec
plain_json = record {
  Text = Database;
  is_empty = λ t. false;
  encode = persisted;
  decode = λ t. some t;
  filled = λ db. refl;
  decode-encode = λ db. refl;
}

abbrev start : Store (json_file_backend plain_json)
start = record { db = base; contents = record { content = none; writable = true } }

abbrev log_in : Change
log_in db = (add_audit "login" "admin" "alice" 9 db, none)

open_store-update_example :
    let after = (update (json_file_backend plain_json) log_in start).0 in
    let reopened : Store (json_file_backend plain_json) = record {
      db = record (log_in base).0 {
        nodes = map_values (λ n. record n { connected_session = "" }) (log_in base).0.nodes;
      };
      contents = after.contents;
    } in
    (after.db ≡ (log_in base).0)
    × (open_store (json_file_backend plain_json) 11 after.contents ≡ (some reopened, none))
unfolding update save_file
open_store-update_example = open_store-update plain_json log_in start 11 refl refl
