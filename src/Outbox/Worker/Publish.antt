-- ===== src/Outbox/Worker/Publish.antt =====
-- Publishing one claimed record: the renewals beside it, and what its end is written down as.
use cool_admin_go_next.Common.{
  ℕ, Bool, not, List, [], ◌∷◌, Text, Option, none, some, Result, ok, err, leb, if◌then◌else◌,
}
use cool_admin_go_next.Outbox.Record.{Claimed, Status, claim_lost, retry, sent, dead}
use cool_admin_go_next.Outbox.Store.{Db, Failure, plain, renew, mark_sent, mark_retry, mark_dead}
use cool_admin_go_next.Outbox.Runs.{Call, run}
use cool_admin_go_next.Outbox.Backoff.{retry_delay}
use cool_admin_go_next.Outbox.Settings.{WorkerConfig}
use cool_admin_go_next.Outbox.Worker.Batch.{Host}

-- What `publish` tells the observer and the log in the end.
pub data Outcome : Type 0 where
  stopped : Outcome  -- the publishing context has ended: nothing is written
  finished : Status → Outcome
  lost : Outcome  -- the claim is another's
  update_failed : Outcome

-- What happens outside the worker while one record is published. `failure` is the publisher's
-- error, `decodes` tells whether the record is a valid envelope, `ticks` are the renewals that are
-- due before the publisher returns, each behind what others did to the database meanwhile,
-- `meanwhile` what they did after the last; `random` is the jitter's source.
pub record Round : Type 0 where
  pub decodes : Bool
  pub failure : Option Text
  pub ticks : List (List Call)
  pub meanwhile : List Call
  pub is_stopped : Bool
  pub summary : Text
  pub random : ℕ → Option ℕ

abbrev pub loss : Failure → Outcome
loss (plain claim_lost) = lost
loss _ = update_failed

-- A renewal that worked lets the next one come.
abbrev go_on : Result Failure (Unit {0}) × Db → (Db → Option Failure × Db) → Option Failure × Db
go_on (ok _, d) rest = rest d
go_on (err e, d) rest = (some e, d)

module _ (host : Host) (config : WorkerConfig) where
  -- `handleClaimLoss` after a failing update; `handled` is what a good one is.
  abbrev pub conclude : Outcome → Result Failure (Unit {0}) × Db → Outcome × Db
  conclude good (ok _, db) = (good, db)
  conclude good (err e, db) = (loss e, db)

  abbrev pub delay_or_max : Option ℕ → ℕ
  delay_or_max none = config.publish_retry_max
  delay_or_max (some d) = d

  -- `finishFailure`
  unfoldable pub finish_failure : Round → Claimed → Text → Db → Outcome × Db
  finish_failure round c summary db =
      if round.is_stopped
      then (stopped, db)
      else if leb config.publish_max_attempts c.row.attempts
      then conclude (finished dead) (mark_dead c.row.message_id c.claim_token summary db)
      else let delay = delay_or_max (
          retry_delay round.random config.publish_retry_base config.publish_retry_max
            c.row.attempts) in
        conclude (finished retry)
          (mark_retry host.kind c.row.message_id c.claim_token delay summary db)

  -- `renew`: a lease that cannot be renewed ends the loop with its error.
  unfoldable pub renew_each : Claimed → List (List Call) → Db → Option Failure × Db
  renew_each c [] db = (none, db)
  renew_each c (calls ∷ ticks) db =
      go_on
        (renew host.kind c.row.message_id c.claim_token config.lease_duration
          (run host.kind host.supply calls db))
        (renew_each c ticks)

  -- What follows the publisher's return, by the renewals' error and the publisher's.
  unfoldable pub conclude_publish :
      Round → Claimed → Option Failure → Option Text → Db → Outcome × Db
  unfolding finish_failure
  conclude_publish round c (some e) failure db = (loss e, db)
  conclude_publish round c none (some _) db = finish_failure round c round.summary db
  conclude_publish round c none none db =
      conclude (finished sent) (mark_sent c.row.message_id c.claim_token db)

  -- `publish`
  unfoldable pub publish : Round → Claimed → Db → Outcome × Db
  unfolding conclude_publish renew_each
  publish round c db =
      if not round.decodes
      then finish_failure round c round.summary db
      else let renewed = renew_each c round.ticks db in
        let later = run host.kind host.supply round.meanwhile renewed.1 in
        if round.is_stopped
        then (stopped, later)
        else conclude_publish round c renewed.0 round.failure later
