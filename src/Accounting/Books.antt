-- ===== src/Accounting/Books.antt =====
-- The books of a database: what the ledger says of each user's balance.
use comrad.Prelude.{
  ℕ, ◌+◌, ◌%◌, ◌≡◌, refl, String, true, List, [], ◌∷◌, ◌++◌, none, some, word, IsWord, ◌==◌,
  if◌then◌else◌, All, arith, eq_iff,
}
use comrad.Prelude.Dict.{Dict, lookup, has_key, insert, lookup-insert}
use comrad.Types.{Direction, User, ComputeLedgerEntry}
use comrad.Store.{Database}

-- The sums of the amounts that the ledger takes from a user and gives to one, as exact numbers.
abbrev pub debit_part : String → ComputeLedgerEntry → ℕ
debit_part k e =
    if e.user_id == k then elim e.direction [ Direction.debit ↦ e.amount | _ ↦ 0 ] else 0

abbrev pub credit_part : String → ComputeLedgerEntry → ℕ
credit_part k e =
    if e.user_id == k then elim e.direction [ Direction.credit ↦ e.amount | _ ↦ 0 ] else 0

pub debits : String → List ComputeLedgerEntry → ℕ
debits k [] = 0
debits k (e ∷ es) = debit_part k e + debits k es

pub credits : String → List ComputeLedgerEntry → ℕ
credits k [] = 0
credits k (e ∷ es) = credit_part k e + credits k es

-- One user's account agrees with the ledger, in the arithmetic of `int64`.
pub record Agrees (k : String) (u : User) (ledger : List ComputeLedgerEntry) : Type 0 where
  pub own_id : u.id ≡ k
  pub in_range : IsWord u.compute_balance
  pub balanced : (u.compute_balance + debits k ledger) % word ≡ credits k ledger % word

-- Every account agrees with the ledger, which names no one without an account.
pub record Books (db : Database) : Type 0 where
  pub accounts : (k : String) (u : User) → lookup k db.users ≡ some u → Agrees k u db.compute_ledger
  pub nameless : lookup "" db.users ≡ none
  pub known : All (λ e. has_key e.user_id db.users ≡ true) db.compute_ledger

pub debits-append :
    (k : String) (es : List ComputeLedgerEntry) (e : ComputeLedgerEntry)
    → debits k (es ++ e ∷ []) ≡ debits k es + debit_part k e
unfolding debits
debits-append k [] e = omega arith
debits-append k (x ∷ es) e = omega (arith, debits-append k es e)

pub credits-append :
    (k : String) (es : List ComputeLedgerEntry) (e : ComputeLedgerEntry)
    → credits k (es ++ e ∷ []) ≡ credits k es + credit_part k e
unfolding credits
credits-append k [] e = omega arith
credits-append k (x ∷ es) e = omega (arith, credits-append k es e)

-- A user with no account has no entry.
pub no_entries :
    (k : String) (users : Dict User) (es : List ComputeLedgerEntry)
    → lookup k users ≡ none
    → All (λ e. has_key e.user_id users ≡ true) es
    → (debits k es ≡ 0) × (credits k es ≡ 0)
unfolding debits credits has_key
no_entries k users [] h a = (refl, refl)
no_entries k users (e ∷ es) h a = ground (arith, eq_iff e.user_id k, no_entries k users es h a.1)

-- An insertion keeps the keys.
pub has_key-insert :
    (k j : String) (u : User) (m : Dict User) → has_key j m ≡ true → has_key j (insert k u m) ≡ true
unfolding has_key
has_key-insert k j u m h = ground (arith, lookup-insert k j u m)

pub All-has_key-insert :
    (k : String) (u : User) (m : Dict User) (es : List ComputeLedgerEntry)
    → All (λ e. has_key e.user_id m ≡ true) es
    → All (λ e. has_key e.user_id (insert k u m) ≡ true) es
All-has_key-insert k u m [] a = tt
All-has_key-insert k u m (e ∷ es) a =
    (has_key-insert k e.user_id u m a.0, All-has_key-insert k u m es a.1)
