-- ===== src/Outbox/Store/Monad.antt =====
-- The database as the store's code meets it: two tables, a clock, the tokens that the random
-- source has given out, and for each statement to come whether it will work.
use cool_admin_go_next.Common.{
  ℕ, Bool, List, [], ◌∷◌, Text, count, Result, ok, err, if◌then◌else◌, ◌==◌,
}
use cool_admin_go_next.Outbox.Record.{Row, StoreError, database, broken_invariant, claim_lost}
use cool_admin_go_next.Outbox.Statements.{update, delete}

-- `busy` is SQLITE_BUSY; after `unread` the statement was run, but its result cannot be read.
pub data Fault : Type 0 where
  fine busy broken unread : Fault

pub data Failure : Type 0 where
  plain : StoreError → Failure
  sqlite_busy : Failure
  cancelled : Failure

pub record Db : Type 0 where
  pub rows : List Row
  pub inbox : List (Text × Text)
  pub now : ℕ
  pub drawn : ℕ
  pub faults : List Fault

abbrev pub Tx : Type 0 → Type 0
Tx A = Db → Result Failure A × Db

abbrev pub continue : {A B : Type 0} → Result Failure A → (A → Tx B) → Tx B
continue (ok a) f db = f a db
continue (err e) f db = (err e, db)

infixl 5 ◌>>=◌ ◌>>◌
abbrev pub ◌>>=◌ : {A B : Type 0} → Tx A → (A → Tx B) → Tx B
◌>>=◌ m f db = let (r, db') = m db in continue r f db'

abbrev pub ◌>>◌ : {A B : Type 0} → Tx A → Tx B → Tx B
m >> k = m >>= λ _. k

abbrev pub pure : {A : Type 0} → A → Tx A
pure a db = (ok a, db)

abbrev pub raise : {A : Type 0} → StoreError → Tx A
raise e db = (err (plain e), db)

abbrev pub next_fault : List Fault → Fault
next_fault [] = fine
next_fault (f ∷ _) = f

abbrev pub later_faults : List Fault → List Fault
later_faults [] = []
later_faults (_ ∷ fs) = fs

-- One statement: what a query gives, or the number of rows of an update with the new database.
abbrev pub answer : {A : Type 0} → Fault → A → Db → Db → Result Failure A × Db
answer fine a old new = (ok a, new)
answer busy a old new = (err sqlite_busy, old)
answer broken a old new = (err (plain database), old)
answer unread a old new = (err (plain database), new)

abbrev pub statement : {A : Type 0} → A → (Db → Db) → Tx A
statement a change db =
    let old = record db { faults = later_faults db.faults } in
    answer (next_fault db.faults) a old (change old)

abbrev pub query : {A : Type 0} → (Db → A) → Tx A
query f db = statement (f db) (λ d. d) db

abbrev pub exec_update : (Row → Bool) → (Row → Row) → Tx ℕ
exec_update test set db =
    statement (count test db.rows) (λ d. record d { rows = update test set d.rows }) db

abbrev pub exec_delete : (Row → Bool) → Tx ℕ
exec_delete test db =
    statement (count test db.rows) (λ d. record d { rows = delete test d.rows }) db

abbrev pub settle : {A : Type 0} → Db → Result Failure A × Db → Result Failure A × Db
settle old (ok a, db) = (ok a, db)
settle old (err e, db) = (err e, record db { rows = old.rows; inbox = old.inbox })

-- DB().Transaction: an error rolls the tables back.
abbrev pub transaction : {A : Type 0} → Tx A → Tx A
transaction m db = settle db (m db)

-- The affected rows of an update by a lease's holder: `execClaimUpdate`, one statement of its own.
abbrev pub one_row : ℕ → Tx (Unit {0})
one_row affected =
    if affected == 0
    then raise claim_lost
    else if affected == 1
    then pure tt
    else raise (broken_invariant affected)

unfoldable pub exec_claim_update : (Row → Bool) → (Row → Row) → Tx (Unit {0})
exec_claim_update test set = do affected ← exec_update test set; one_row affected
