-- ===== src/Outbox/Publishing/Outcomes.antt =====
-- How the publishing of one record ends, and what that says of the table.
use cool_admin_go_next.Common.{
  ℕ, ◌≤◌, ◌<◌, ◌≡◌, refl, sym, ap, ◌∙◌, subst, Bool, true, false, not, Text, Option, none, some,
  Result, ok, err, leb, ◌==◌, if◌then◌else◌, arith, Bool-cases, inl, inr, count, leb→le,
  leb_false→lt,
}
use cool_admin_go_next.Outbox.Record.{Row, Claimed, claim_lost, Status, retry, sent, dead}
use cool_admin_go_next.Outbox.Statements.{update, held_by, sent_set, dead_set, retry_set}
use cool_admin_go_next.Outbox.Store.{
  Db, Failure, plain, sqlite_busy, cancelled, exec_claim_update, exec_update, one_row, mark_sent,
  mark_dead, mark_retry, next_fault,
}
use cool_admin_go_next.Outbox.Runs.{run}
use cool_admin_go_next.Outbox.Inversion.{pair-eq, continue-eq-ok, answer-eq-ok}
use cool_admin_go_next.Outbox.Backoff.{retry_delay}
use cool_admin_go_next.Outbox.Settings.{WorkerConfig}
use cool_admin_go_next.Outbox.Worker.{
  Host, Round, Outcome, finished, stopped, loss, conclude, delay_or_max, finish_failure, renew_each,
  conclude_publish, publish,
}

-- A good update by a holder: exactly one row was held, and the table is updated.
holder-eq-ok :
    (test : Row → Bool) (set : Row → Row) (db db' : Db)
    → exec_claim_update test set db ≡ (ok tt, db')
    → (count test db.rows ≡ 1) × (db'.rows ≡ update test set db.rows)
unfolding exec_claim_update
holder-eq-ok test set db db' h =
    let (n, mid, exec, rest) = continue-eq-ok (exec_update test set db) one_row h in
    let (number, new) = answer-eq-ok (next_fault db.faults) (count test db.rows) _ _ exec in
    go n mid number (ap (λ d. d.rows) new) rest
  where
    go :
        (n : ℕ) (mid : Db)
        → n ≡ count test db.rows
        → mid.rows ≡ update test set db.rows
        → one_row n mid ≡ (ok tt, db')
        → (count test db.rows ≡ 1) × (db'.rows ≡ update test set db.rows)
    go n mid e rows t = elim (Bool-cases (n == 0)) [
      | inl z ↦ absurd (cc (pair-eq (rw z at t)).0)
      | inr nz ↦ elim (Bool-cases (n == 1)) [
        | inl one ↦ (ground arith, sym (ap (λ p. p.1.rows) (rw (nz, one) at t)) ∙ rows)
        | inr more ↦ absurd (cc (pair-eq (rw (nz, more) at t)).0)
      ]
    ]

loss-ne-finished : (e : Failure) (s : Status) → loss e ≡ finished s → ⊥
loss-ne-finished (plain claim_lost) s h = cc
loss-ne-finished (plain _) s h = cc
loss-ne-finished sqlite_busy s h = cc
loss-ne-finished cancelled s h = cc

module _ (host : Host) (config : WorkerConfig) where
  conclude-finished :
      (good : Outcome) (r : Result Failure (Unit {0}) × Db) (s : Status) (db' : Db)
      → conclude host config good r ≡ (finished s, db')
      → (r ≡ (ok tt, db')) × (good ≡ finished s)
  conclude-finished good (ok _, db) s db' h = (ap (λ d. (ok tt, d)) (pair-eq h).1, (pair-eq h).0)
  conclude-finished good (err e, db) s db' h = absurd (loss-ne-finished e s (pair-eq h).0)

  -- One row was held under the record's token, and it alone is written.
  abbrev pub Written : Claimed → (Row → Row) → Db → Db → Type 0
  Written c set later db' =
      (count (held_by c.row.message_id c.claim_token) later.rows ≡ 1)
      × (db'.rows ≡ update (held_by c.row.message_id c.claim_token) set later.rows)

  -- What each final status means for the record and the table that it was written to.
  abbrev pub Ended : Round → Claimed → Db → Db → Status → Type 0
  Ended round c later db' sent =
      (round.failure ≡ none) × (round.decodes ≡ true) × Written c (sent_set later.now) later db'
  Ended round c later db' dead =
      (config.publish_max_attempts ≤ c.row.attempts)
      × Written c (dead_set later.now round.summary) later db'
  Ended round c later db' retry =
      (delay : ℕ) × (c.row.attempts < config.publish_max_attempts)
      × (delay
          ≡ delay_or_max host config (
              retry_delay round.random config.publish_retry_base config.publish_retry_max
                c.row.attempts))
      × Written c (retry_set host.kind later.now delay round.summary) later db'
  Ended round c later db' _ = ⊥

  finish_failure-Ended :
      (round : Round) (c : Claimed) (db db' : Db) (s : Status)
      → finish_failure host config round c round.summary db ≡ (finished s, db')
      → Ended round c db db' s
  unfolding finish_failure mark_dead mark_retry
  finish_failure-Ended round c db db' s h =
      go round.is_stopped (leb config.publish_max_attempts c.row.attempts) refl h
    where
      delay : ℕ
      delay = delay_or_max host config (
          retry_delay round.random config.publish_retry_base config.publish_retry_max
            c.row.attempts)

      status_of : Outcome → Status
      status_of (finished t) = t
      status_of _ = sent

      go :
          (a b : Bool)
          → leb config.publish_max_attempts c.row.attempts ≡ b
          → (if a
              then (stopped, db)
              else if b
              then conclude host config
                  (finished dead)
                  (mark_dead c.row.message_id c.claim_token round.summary db)
              else conclude host config
                  (finished retry)
                  (mark_retry host.kind c.row.message_id c.claim_token delay round.summary db))
            ≡ (finished s, db')
          → Ended round c db db' s
      go true b e t = absurd (cc (pair-eq t).0)
      go false true e t =
          let (done, good) = conclude-finished (finished dead) _ s db' t in
          let same : dead ≡ s = ap status_of good in
          subst (Ended round c db db') same (leb→le _ _ e, holder-eq-ok _ _ db db' done)
      go false false e t =
          let (done, good) = conclude-finished (finished retry) _ s db' t in
          let same : retry ≡ s = ap status_of good in
          subst (Ended round c db db') same
            (delay, leb_false→lt _ _ e, refl, holder-eq-ok _ _ db db' done)

  -- The database that the end of the round is written to.
  abbrev pub moment : Round → Claimed → Db → Db
  moment round c db =
      if round.decodes
      then run host.kind host.supply round.meanwhile (renew_each host config c round.ticks db).1
      else db

-- When the publishing of a record ends in a status, that status is true of it. Sent: the record was
-- decoded and the publisher returned no error. Dead: the attempts have reached the limit. Retry:
-- they have not, and the delay is the jittered backoff of that attempt, or the longest delay if the
-- random source fails. In each case exactly one row was held under the record's token when the end
-- was written, and the table was changed by that statement alone.
pub publish-Ended :
    (host : Host) (config : WorkerConfig) (round : Round) (c : Claimed) (db db' : Db) (s : Status)
    → publish host config round c db ≡ (finished s, db')
    → Ended host config round c (moment host config round c db) db' s
unfolding publish mark_sent
publish-Ended host config round c db db' s h = go round.decodes refl round.is_stopped h
  where
    later : Db
    later = run host.kind host.supply round.meanwhile (renew_each host config c round.ticks db).1

    status_of : Outcome → Status
    status_of (finished t) = t
    status_of _ = sent

    concluded :
        (renewed : Option Failure) (failure : Option Text)
        → round.failure ≡ failure
        → round.decodes ≡ true
        → conclude_publish host config round c renewed failure later ≡ (finished s, db')
        → Ended host config round c later db' s
    concluded (some e) failure f d t = absurd (loss-ne-finished e s (pair-eq t).0)
    concluded none (some x) f d t = finish_failure-Ended host config round c later db' s t
    concluded none none f d t =
        let (done, good) = conclude-finished host config (finished sent) _ s db' t in
        let same : sent ≡ s = ap status_of good in
        subst (Ended host config round c later db') same (f, d, holder-eq-ok _ _ later db' done)

    go :
        (a : Bool)
        → round.decodes ≡ a
        → (b : Bool)
        → (if not a
            then finish_failure host config round c round.summary db
            else if b
            then (stopped, later)
            else conclude_publish host config round c
                (renew_each host config c round.ticks db).0
                round.failure
                later)
          ≡ (finished s, db')
        → Ended host config round c (moment host config round c db) db' s
    go true d true t = absurd (cc (pair-eq t).0)
    go true d false t =
        let here : moment host config round c db ≡ later = rw d in
        subst (λ m. Ended host config round c m db' s) (sym here)
          (concluded (renew_each host config c round.ticks db).0 round.failure refl d t)
    go false d b t =
        let here : moment host config round c db ≡ db = rw d in
        subst (λ m. Ended host config round c m db' s) (sym here)
          (finish_failure-Ended host config round c db db' s t)
