-- ===== src/Outbox/Change/Leases.antt =====
-- Claiming and the operations of a lease's holder, on every path and with any failures, is a sequence of the changes
-- of `Rules`.
use cool_admin_go_next.Common.{
  ℕ, zero, suc, refl, Bool, true, false, List, [], ◌∷◌, Text, Result, ok, err, arith, count, leb,
}
use cool_admin_go_next.Outbox.Record.{Row, invalid_argument}
use cool_admin_go_next.Outbox.Statements.{
  Kind, Pool, held_by, update, claim_where, claim_set, renew_set,
}
use cool_admin_go_next.Outbox.Store.{
  Db, Tx, Failure, plain, cancelled, sqlite_busy, raise, head_or_missed, read_claimed, claimed_rows,
  claim_one, claim_each, claim_within, try_again, retry_busy, claim, max_attempts,
  exec_claim_update, exec_update, one_row, renew, mark_sent, mark_retry, mark_dead, next_fault,
  later_faults,
}
use cool_admin_go_next.Outbox.Change.Rules.{
  Change, waits, claims, renews, sends, retries, buries, Reach, here, next, Reach-trans, Reaches,
  Reaches-pure, Reaches-raise, Reaches-bind, Reaches-if, Reaches-lift, Reaches-transaction,
  Reaches-query, Reach-statement, Reach-answer, Reach-continue,
}

module _ (supply : ℕ → Text) where
  pub Reaches-head_or_missed : (rows : List Row) → Reaches supply (head_or_missed rows)
  Reaches-head_or_missed [] = record { at = λ db. here }
  Reaches-head_or_missed (r ∷ _) = record { at = λ db. here }

  Reaches-read_claimed : (id token : Text) → Reaches supply (read_claimed id token)
  unfolding read_claimed
  Reaches-read_claimed id token =
      Reaches-bind supply _ _ (Reaches-query supply _)
        λ found. Reaches-bind supply _ _ (Reaches-head_or_missed found) λ r. Reaches-lift supply _

  Reaches-claimed_rows :
      (kind : Kind) (id token : Text) (n : ℕ) → Reaches supply (claimed_rows kind id token n)
  unfolding claimed_rows
  Reaches-claimed_rows kind id token n = Reaches-if supply _ _ _ (Reaches-pure supply _) (
      Reaches-if supply _ _ _
        (Reaches-bind supply _ _ (Reaches-read_claimed id token) λ r. Reaches-pure supply _)
        (Reaches-raise supply _))

  module _ (kind : Kind) (owner : Text) (duration : ℕ) (pool : Pool) where
    -- The token is drawn before the update, and stays drawn if that fails.
    Reach-claim_update :
        (id : Text) (db : Db)
        → Reach supply db
            (exec_update
              (claim_where pool db.now id)
              (claim_set kind pool db.now owner (supply db.drawn) duration)
              (record db { drawn = suc db.drawn })).1
    Reach-claim_update id db =
        let spent : Db = record db { faults = later_faults db.faults } in
        let drew : Db = record spent { drawn = suc db.drawn } in
        Reach-answer supply {A = ℕ} (next_fault db.faults)
          (count (claim_where pool db.now id) db.rows)
          (next here (waits {u = drew} refl refl (omega arith) (omega arith)))
          (next (next here (waits {u = spent} refl refl (omega arith) (omega arith)))
            (claims kind pool owner duration id))

    Reaches-claim_one : (id : Text) → Reaches supply (claim_one kind supply owner duration pool id)
    unfolding claim_one
    Reaches-claim_one id = record {
      at = λ db.
          Reach-continue supply
            (exec_update (claim_where pool db.now id)
              (claim_set kind pool db.now owner (supply db.drawn) duration)
              (record db { drawn = suc db.drawn }))
            (claimed_rows kind id (supply db.drawn)) (Reach-claim_update id db)
            (λ n. Reaches-claimed_rows kind id (supply db.drawn) n);
    }

    Reaches-claim_each :
        (ids : List Text) → Reaches supply (claim_each kind supply owner duration pool ids)
    unfolding claim_each
    Reaches-claim_each [] = Reaches-pure supply _
    Reaches-claim_each (id ∷ ids) =
        Reaches-bind supply _ _ (Reaches-claim_one id)
          λ first. Reaches-bind supply _ _ (Reaches-claim_each ids) λ rest. Reaches-pure supply _

    Reaches-claim_within :
        (locked : Text → Bool) (limit : ℕ)
        → Reaches supply (claim_within kind supply owner duration pool locked limit)
    unfolding claim_within
    Reaches-claim_within locked limit =
        Reaches-bind supply _ _ (Reaches-query supply _) λ rows. Reaches-claim_each _

  Reach-try_again :
      {A : Type 0} (again : Tx A) (last done : Bool) {db : Db} (r : Result Failure A × Db)
      → Reaches supply again
      → Reach supply db r.1
      → Reach supply db (try_again again last done r).1
  Reach-try_again again last done (ok a, db') p h = h
  Reach-try_again again true done (err sqlite_busy, db') p h = h
  Reach-try_again again false true (err sqlite_busy, db') p h = h
  Reach-try_again again false false (err sqlite_busy, db') p h = Reach-trans supply h (p.at db')
  Reach-try_again again last done (err (plain e), db') p h = h
  Reach-try_again again last done (err cancelled, db') p h = h

  Reaches-retry_busy :
      {A : Type 0} (done : ℕ → Bool) (left attempt : ℕ) (m : Tx A)
      → Reaches supply m
      → Reaches supply (retry_busy done left attempt m)
  unfolding retry_busy
  Reaches-retry_busy done zero attempt m p = record { at = λ db. here }
  Reaches-retry_busy done (suc left) attempt m p =
      let again = Reaches-retry_busy done left (suc attempt) m p in
      record { at = λ db. Reach-try_again _ _ _ _ again ((Reaches-transaction supply m p).at db) }

  pub Reaches-claim :
      (kind : Kind) (done : ℕ → Bool) (owner : Text) (limit duration : ℕ) (pool : Pool)
      (locked : Text → Bool)
      → Reaches supply (claim kind supply done owner limit duration pool locked)
  unfolding claim
  Reaches-claim kind done owner limit duration pool locked =
      let work = Reaches-claim_within kind owner duration pool locked limit in
      Reaches-if supply _ _ _ (Reaches-raise supply _) (
        Reaches-if supply _ _ _ (Reaches-retry_busy done max_attempts 0 _ work)
          (Reaches-transaction supply _ work))

  Reaches-one_row : (n : ℕ) → Reaches supply (one_row n)
  Reaches-one_row n =
      Reaches-if supply _ _ _ (Reaches-raise supply _)
        (Reaches-if supply _ _ _ (Reaches-pure supply _) (Reaches-raise supply _))

  Reach-exec_claim_update :
      (test : Row → Bool) (set : Row → Row) (db : Db)
      → Change supply
          (record db { faults = later_faults db.faults })
          (record db { faults = later_faults db.faults; rows = update test set db.rows })
      → Reach supply db (exec_claim_update test set db).1
  unfolding exec_claim_update
  Reach-exec_claim_update test set db s =
      Reach-continue supply (exec_update test set db) one_row
        (Reach-statement supply _ (λ d. record d { rows = update test set d.rows }) db s)
        Reaches-one_row

  pub Reaches-renew :
      (kind : Kind) (id token : Text) (duration : ℕ) → Reaches supply (renew kind id token duration)
  unfolding renew
  Reaches-renew kind id token duration =
      Reaches-if supply (leb duration 0) (raise invalid_argument)
        (λ db. exec_claim_update (held_by id token) (renew_set kind db.now duration) db)
        (Reaches-raise supply _)
        (record { at = λ db. Reach-exec_claim_update _ _ db (renews kind id token duration) })

  pub Reaches-mark_sent : (id token : Text) → Reaches supply (mark_sent id token)
  unfolding mark_sent
  Reaches-mark_sent id token = record { at = λ db. Reach-exec_claim_update _ _ db (sends id token) }

  pub Reaches-mark_retry :
      (kind : Kind) (id token : Text) (duration : ℕ) (summary : Text)
      → Reaches supply (mark_retry kind id token duration summary)
  unfolding mark_retry
  Reaches-mark_retry kind id token duration summary = record {
    at = λ db. Reach-exec_claim_update _ _ db (retries kind id token duration summary);
  }

  pub Reaches-mark_dead : (id token summary : Text) → Reaches supply (mark_dead id token summary)
  unfolding mark_dead
  Reaches-mark_dead id token summary = record {
    at = λ db. Reach-exec_claim_update _ _ db (buries id token summary);
  }
