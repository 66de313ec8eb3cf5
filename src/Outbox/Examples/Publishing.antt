-- ===== src/Outbox/Examples/Publishing.antt =====
-- A worker with a batch of two, and the end of one record.
use cool_admin_go_next.Common.{
  ◌≤◌, ◌≡◌, refl, ap, true, false, List, [], ◌∷◌, codes, arith, none, some, All, length, Result, ok,
  err, trim_space,
}
use cool_admin_go_next.Outbox.Record.{Claimed, sent, valid_message_id, to_record, hex_but_dashes}
use cool_admin_go_next.Outbox.Statements.{
  sqlite, any_due, enqueue_row, claim_set, select, update, sent_set, renew_set,
}
use cool_admin_go_next.Outbox.Store.{
  Db, Failure, claim, claim_within, claim_each, claim_one, claimed_rows, read_claimed, retry_busy,
  mark_sent, exec_claim_update, renew,
}
use cool_admin_go_next.Outbox.Runs.{run}
use cool_admin_go_next.Outbox.Rows.{Distinct}
use cool_admin_go_next.Outbox.Settings.{WorkerConfig}
use cool_admin_go_next.Outbox.Worker.{
  Host, claim_pool, claim_extra, claim_batch, Round, Outcome, finished, publish, renew_each,
  conclude_publish,
}
use cool_admin_go_next.Outbox.Publishing.Batches.{Owned, claim_batch_bounded}
use cool_admin_go_next.Outbox.Publishing.Outcomes.{Ended, moment, publish-Ended}
use cool_admin_go_next.Outbox.Examples.{
  supply, never, unlocked, worker, stored, stored-Distinct, first_message,
}

abbrev host : Host
host = record { kind = sqlite; supply = supply; id = worker; done = never; locked = unlocked }

abbrev config : WorkerConfig
config = record {
  poll_interval = 500_000;
  batch_size = 2;
  lease_duration = 30_000;
  publish_timeout = 10_000;
  publish_max_attempts = 12;
  publish_retry_base = 1000;
  publish_retry_max = 300_000;
  retention = 1_000_000;
}

abbrev batch : Result Failure (List Claimed) × Db
batch = claim_batch host config true stored

abbrev records : Result Failure (List Claimed) → List Claimed
records (ok cs) = cs
records (err _) = []

-- No lease has expired, so both records come from the ready ones.
batch_of_two : (batch.0 ≡ ok (records batch.0)) × (length (records batch.0) ≡ 2)
unfolding claim_batch claim_pool claim_extra claim claim_within claim_each claim_one claimed_rows
    read_claimed retry_busy to_record valid_message_id hex_but_dashes claim_set enqueue_row
    trim_space select update
batch_of_two = (refl, refl)

claim_batch_bounded_example :
    (length (records batch.0) ≤ 2) × All (Owned worker) (records batch.0) × Distinct batch.1.rows
claim_batch_bounded_example =
    claim_batch_bounded host config true stored (omega arith) stored-Distinct
      (ap (λ r. (r, batch.1)) batch_of_two.0)

-- One renewal comes before the publisher returns without an error.
abbrev round : Round
round = record {
  decodes = true;
  failure = none;
  ticks = [] ∷ [];
  meanwhile = [];
  is_stopped = false;
  summary = codes "failed";
  random = λ n. some 0;
}

abbrev claimed : Claimed
unfolding claim_set enqueue_row
claimed = record {
  row = claim_set sqlite any_due 7 worker (supply 0) 30_000 (enqueue_row 0 first_message);
  claim_token = supply 0;
}

abbrev leased_db : Db
unfolding claimed
leased_db = record stored { rows = claimed.row ∷ []; drawn = 1 }

abbrev ending : Outcome × Db
ending = publish host config round claimed leased_db

ends_sent : ending ≡ (finished sent, ending.1)
unfolding leased_db claimed publish renew_each conclude_publish renew mark_sent exec_claim_update
    run update claim_set enqueue_row sent_set renew_set
ends_sent = refl

publish-Ended_example :
    Ended host config round claimed (moment host config round claimed leased_db) ending.1 sent
publish-Ended_example = publish-Ended host config round claimed leased_db ending.1 sent ends_sent
