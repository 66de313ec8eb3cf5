-- ===== src/Outbox/Examples.antt =====
-- Runs of the outbox on concrete inputs: a database with two messages, two workers, and times.
pub mod Publishing
mod Delivery
mod Numbers
use cool_admin_go_next.Common.{
  ℕ, zero, suc, ◌+◌, ◌-◌, ◌*◌, ◌^◌, ◌/◌, ◌≤◌, ◌<◌, min, ◌≡◌, refl, ap, Bool, true, false, List, [],
  ◌∷◌, ◌++◌, Text, codes, arith, Option, none, some, All, length, Result, ok, err, ltb,
  if◌then◌else◌, any, count, trim_space,
}
use cool_admin_go_next.Outbox.Record.{
  Row, Message, Claimed, Status, pending, leased, retry, sent, dead, claim_lost, valid_message_id,
  to_record, hex_but_dashes,
}
use cool_admin_go_next.Outbox.Statements.{
  update, Kind, sqlite, mysql, Pool, any_due, available, expired, enqueue_row, claim_set, select,
  duration_argument,
}
use cool_admin_go_next.Outbox.Store.{
  Db, Failure, mark_sent, mark_retry, mark_dead, renew, Fault, fine, busy, unread, claim,
  claim_within, claim_each, claim_one, claimed_rows, read_claimed, retry_busy, transaction,
}
use cool_admin_go_next.Outbox.Runs.{
  Call, run, op_enqueue, op_claim, op_sent, op_retry, op_dead, op_cleanup, op_replay,
}
use cool_admin_go_next.Outbox.Invariant.{IsSound, run-IsSound}
use cool_admin_go_next.Outbox.Fencing.{run-fenced, calm, Loses, is_held}
use cool_admin_go_next.Outbox.Holding.{Makes, IsSent, IsWaiting, IsBuried, IsRenewed, holder-Makes}
use cool_admin_go_next.Outbox.Claims.Granted.{Granted}
use cool_admin_go_next.Outbox.Claims.Loop.{claim-granted}
use cool_admin_go_next.Outbox.Rows.{Distinct}

abbrev pub supply : ℕ → Text
supply k = k ∷ []

abbrev pub first_message : Message
first_message = record {
  message_id = codes "01890000-0000-7000-8000-000000000001";
  topic = codes "user";
  message_type = codes "user.created";
  message_version = 1;
  message_key = none;
  payload = codes "{}";
  headers = codes "{}";
}

abbrev pub second_message : Message
second_message = record first_message { message_id = codes "01890000-0000-7000-8000-000000000002" }

abbrev pub empty_db : Db
empty_db = record { rows = []; inbox = []; now = 0; drawn = 0; faults = [] }

abbrev pub stored : Db
stored = record empty_db {
  rows = enqueue_row 0 first_message ∷ enqueue_row 0 second_message ∷ [];
  now = 7;
}

abbrev pub never : ℕ → Bool
never _ = false

abbrev pub unlocked : Text → Bool
unlocked _ = false

abbrev pub worker : Text
worker = codes "w1"

abbrev claiming : Call
claiming = record {
  op = op_claim never worker 1 30_000 any_due unlocked;
  elapsed = 5;
  faults = busy ∷ [];
}

-- Two messages are stored, one is claimed at the second attempt, sent, and purged later.
abbrev pub script : List Call
script =
    record { op = op_enqueue true first_message; elapsed = 1; faults = [] }
    ∷ record { op = op_enqueue true second_message; elapsed = 1; faults = [] }
    ∷ claiming
    ∷ record { op = op_sent first_message.message_id (supply 0); elapsed = 1; faults = unread ∷ [] }
    ∷ record { op = op_cleanup 1000 10; elapsed = 5000; faults = [] }
    ∷ []

run-IsSound_example : IsSound (run sqlite supply script empty_db).rows
run-IsSound_example =
    run-IsSound sqlite supply script empty_db (record { consistent = tt; keyed = tt })

-- The first message is leased again, under the second token.
abbrev leased_again : Db
unfolding claim_set enqueue_row
leased_again = record stored {
  rows =
      claim_set mysql any_due 7 worker (supply 1) 30_000 (enqueue_row 0 first_message)
      ∷ enqueue_row 0 second_message
      ∷ [];
  drawn = 2;
}

supply-injective : (i j : ℕ) → supply i ≡ supply j → i ≡ j
supply-injective i j e = cc

run-fenced_example :
    let later = calm (run sqlite supply script leased_again) in
    let id = first_message.message_id in
    Loses (mark_sent id (supply 0)) later
    × Loses (mark_retry sqlite id (supply 0) 1000 []) later
    × Loses (mark_dead id (supply 0) []) later
    × Loses (renew sqlite id (supply 0) 1000) later
unfolding leased_again
run-fenced_example =
    run-fenced sqlite supply script leased_again first_message.message_id 0 1000 [] supply-injective
      (omega arith) refl (omega arith)

pub stored-Distinct : Distinct stored.rows
unfolding enqueue_row
stored-Distinct = (refl, (refl, tt))

abbrev granted : Result Failure (List Claimed) × Db
granted = claim sqlite supply never worker 1 30_000 any_due unlocked stored

abbrev records : Result Failure (List Claimed) → List Claimed
records (ok cs) = cs
records (err _) = []

claims_one : (granted.0 ≡ ok (records granted.0)) × (length (records granted.0) ≡ 1)
unfolding claim claim_within claim_each claim_one claimed_rows read_claimed retry_busy to_record
    valid_message_id hex_but_dashes claim_set enqueue_row trim_space select update
claims_one = (refl, refl)

claim-granted_example :
    (length (records granted.0) ≤ 1)
    × All
        (Granted sqlite supply worker 30_000 any_due (omega arith) granted.1.now stored.rows)
        (records granted.0)
    × Distinct granted.1.rows
claim-granted_example =
    claim-granted sqlite supply never worker 1 30_000 any_due unlocked stored (omega arith)
      stored-Distinct (ap (λ r. (r, granted.1)) claims_one.0)

-- The second token holds the first message.
leased_again-Distinct : Distinct leased_again.rows
unfolding leased_again claim_set enqueue_row
leased_again-Distinct = (refl, (refl, tt))

abbrev leased_row : Row
unfolding claim_set enqueue_row
leased_row = claim_set mysql any_due 7 worker (supply 1) 30_000 (enqueue_row 0 first_message)

abbrev others : List Row
unfolding enqueue_row
others = enqueue_row 0 second_message ∷ []

-- The lease ends at 37.
lease_end : leased_row.lease_expires_at ≡ some 37
unfolding leased_row claim_set duration_argument
lease_end = refl

holder-Makes_example :
    let now = calm leased_again in
    let id = first_message.message_id in
    Makes (mark_sent id (supply 1)) now [] leased_row others (IsSent leased_again.now)
    × Makes
        (mark_retry sqlite id (supply 1) 1000 [])
        now
        []
        leased_row
        others
        (IsWaiting leased_again.now 1000 [])
    × Makes (mark_dead id (supply 1) []) now [] leased_row others (IsBuried [])
    × Makes
        (renew sqlite id (supply 1) 1000)
        now
        []
        leased_row
        others
        (IsRenewed leased_row leased_again.now 37 1000)
unfolding leased_again leased_row others claim_set enqueue_row
holder-Makes_example =
    holder-Makes sqlite leased_again (supply 1) [] others leased_row leased_again-Distinct refl refl
      refl 1000 37 [] lease_end (omega arith)
