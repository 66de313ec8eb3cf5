-- ===== src/Outbox/Store/Claim.antt =====
-- Claiming, renewing and finishing a lease.
use cool_admin_go_next.Common.{
  ℕ, zero, suc, ◌++◌, Bool, ◌&&◌, ◌||◌, List, [], ◌∷◌, Text, Result, ok, err, leb, ◌==◌,
  if◌then◌else◌, map, filter,
}
use cool_admin_go_next.Outbox.Record.{
  Row, Claimed, StoreError, invalid_argument, token_missed, broken_invariant, retries_exhausted,
  to_record, blank,
}
use cool_admin_go_next.Outbox.Statements.{
  Kind, is_sqlite, Pool, select, claim_candidates, claim_order, claim_where, claim_set, held_by,
  renew_set, sent_set, retry_set, dead_set,
}
use cool_admin_go_next.Outbox.Store.Monad.{
  Db, Tx, Failure, plain, sqlite_busy, cancelled, ◌>>=◌, pure, raise, query, exec_update,
  transaction, exec_claim_update,
}

abbrev pub head_or_missed : List Row → Tx Row
head_or_missed [] = raise token_missed
head_or_missed (r ∷ _) = pure r

abbrev pub lift : {A : Type 0} → Result StoreError A → Tx A
lift (ok a) db = (ok a, db)
lift (err e) db = (err (plain e), db)

unfoldable pub read_claimed : Text → Text → Tx Claimed
unfolding to_record
read_claimed id token = do
  found ← query (λ db. filter (held_by id token) db.rows)
  r ← head_or_missed found
  lift (to_record r)

-- The random source: the tokens in the order in which they are drawn.
abbrev pub new_claim_token : (ℕ → Text) → Tx Text
new_claim_token supply db = (ok (supply db.drawn), record db { drawn = suc db.drawn })

-- What follows the update of one candidate; `continue` on SQLite adds no record.
unfoldable pub claimed_rows : Kind → Text → Text → ℕ → Tx (List Claimed)
unfolding read_claimed
claimed_rows kind id token affected =
    if affected == 0 && is_sqlite kind
    then pure []
    else if affected == 1
    then (read_claimed id token >>= λ r. pure (r ∷ []))
    else raise (broken_invariant affected)

module _ (kind : Kind) (supply : ℕ → Text) (owner : Text) (duration : ℕ) (pool : Pool) where
  unfoldable pub claim_one : Text → Tx (List Claimed)
  unfolding claimed_rows
  claim_one id = do
    token ← new_claim_token supply
    affected ← λ db.
        exec_update (claim_where pool db.now id) (claim_set kind pool db.now owner token duration)
          db
    claimed_rows kind id token affected

  unfoldable pub claim_each : List Text → Tx (List Claimed)
  unfolding claim_one
  claim_each [] = pure []
  claim_each (id ∷ ids) = do first ← claim_one id; rest ← claim_each ids; pure (first ++ rest)

  unfoldable pub claim_within : (Text → Bool) → ℕ → Tx (List Claimed)
  unfolding claim_each
  claim_within locked limit = do
    candidates ←
        query
          λ db. select (claim_candidates kind locked pool db.now) (claim_order pool) limit db.rows
    claim_each (map (λ r. r.message_id) candidates)

-- `claimSQLite`: a busy database is tried again, eight times in all, unless the context ends in
-- the wait after an attempt.
abbrev pub max_attempts : ℕ
max_attempts = 8

abbrev pub try_again :
    {A : Type 0} → Tx A → Bool → Bool → Result Failure A × Db → Result Failure A × Db
try_again again last done (ok a, db) = (ok a, db)
try_again again last done (err sqlite_busy, db) =
    if last then (err sqlite_busy, db) else if done then (err cancelled, db) else again db
try_again again last done (err (plain e), db) = (err (plain e), db)
try_again again last done (err cancelled, db) = (err cancelled, db)

unfoldable pub retry_busy : {A : Type 0} → (ℕ → Bool) → ℕ → ℕ → Tx A → Tx A
retry_busy done zero attempt m db = (err (plain retries_exhausted), db)
retry_busy done (suc left) attempt m db =
    try_again (retry_busy done left (suc attempt) m) (left == 0) (done attempt) (transaction m db)

-- `done n` tells whether the context has ended when the wait after attempt `n` does.
module _ (kind : Kind) (supply : ℕ → Text) (done : ℕ → Bool) where
  unfoldable pub claim : Text → ℕ → ℕ → Pool → (Text → Bool) → Tx (List Claimed)
  unfolding claim_within retry_busy
  claim owner limit duration pool locked =
      let work = claim_within kind supply owner duration pool locked limit in
      if blank owner || leb limit 0 || leb duration 0
      then raise invalid_argument
      else if is_sqlite kind
      then retry_busy done max_attempts 0 work
      else transaction work

-- A lease's holder. Negative durations, which the code refuses, are not numbers of the model.
unfoldable pub renew : Kind → Text → Text → ℕ → Tx (Unit {0})
unfolding exec_claim_update
renew kind id token duration = if leb duration 0 then raise invalid_argument else λ db.
    exec_claim_update (held_by id token) (renew_set kind db.now duration) db

unfoldable pub mark_sent : Text → Text → Tx (Unit {0})
unfolding exec_claim_update
mark_sent id token db = exec_claim_update (held_by id token) (sent_set db.now) db

unfoldable pub mark_retry : Kind → Text → Text → ℕ → Text → Tx (Unit {0})
unfolding exec_claim_update
mark_retry kind id token duration summary db =
    exec_claim_update (held_by id token) (retry_set kind db.now duration summary) db

unfoldable pub mark_dead : Text → Text → Text → Tx (Unit {0})
unfolding exec_claim_update
mark_dead id token summary db = exec_claim_update (held_by id token) (dead_set db.now summary) db
