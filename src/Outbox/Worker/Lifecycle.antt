-- ===== src/Outbox/Worker/Lifecycle.antt =====
-- A poll, and the worker's life: started once, its loop ended by its own error or by a stop.
use cool_admin_go_next.Common.{Bool, List, [], ◌∷◌, Result, ok, err}
use cool_admin_go_next.Outbox.Record.{Claimed}
use cool_admin_go_next.Outbox.Store.{Db, Failure}
use cool_admin_go_next.Outbox.Settings.{WorkerConfig}
use cool_admin_go_next.Outbox.Worker.Batch.{Host, claim_batch}
use cool_admin_go_next.Outbox.Worker.Publish.{Round, Outcome, publish}

abbrev next_round : List Round → Round → Round
next_round [] quiet = quiet
next_round (r ∷ _) quiet = r

abbrev later_rounds : List Round → List Round
later_rounds [] = []
later_rounds (_ ∷ rs) = rs

module _ (host : Host) (config : WorkerConfig) (quiet : Round) where
  -- The records of a batch are published at the same time; what the others do meanwhile is in each
  -- record's round. `quiet` is the round of a record that the list has none for.
  unfoldable pub publish_all : List Round → List Claimed → Db → List Outcome × Db
  publish_all rounds [] db = ([], db)
  publish_all rounds (c ∷ cs) db =
      let (o, db') = publish host config (next_round rounds quiet) c db in
      let (os, db'') = publish_all (later_rounds rounds) cs db' in (o ∷ os, db'')

  abbrev pub publish_claimed :
      List Round → Result Failure (List Claimed) × Db → Result Failure (List Outcome) × Db
  unfolding publish_all
  publish_claimed rounds (ok cs, db) = let (os, db') = publish_all rounds cs db in (ok os, db')
  publish_claimed rounds (err e, db) = (err e, db)

  -- `poll`: an error of the claim ends the poll before anything is published.
  unfoldable pub poll : List Round → Bool → Db → Result Failure (List Outcome) × Db
  poll rounds first db = publish_claimed rounds (claim_batch host config first db)
