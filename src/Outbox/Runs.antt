-- ===== src/Outbox/Runs.antt =====
-- Runs of the store: any sequence of its operations, by any workers and operators, with the clock
-- and the failures of the statements set anew before each.
use cool_admin_go_next.Common.{ℕ, ◌+◌, Bool, List, [], ◌∷◌, Text, refl, arith}
use cool_admin_go_next.Outbox.Record.{Message, Status}
use cool_admin_go_next.Outbox.Statements.{Kind, Pool}
use cool_admin_go_next.Outbox.Store.{
  Db, Fault, claim, renew, mark_sent, mark_retry, mark_dead, enqueue, cleanup_sent, list, show,
  replay_dead, insert_if_absent,
}
use cool_admin_go_next.Outbox.Change.Rules.{Reach, here, next, waits, Reach-trans}
use cool_admin_go_next.Outbox.Change.Leases.{
  Reaches-claim, Reaches-renew, Reaches-mark_sent, Reaches-mark_retry, Reaches-mark_dead,
}
use cool_admin_go_next.Outbox.Change.Upkeep.{
  Reaches-enqueue, Reaches-cleanup_sent, Reaches-list, Reaches-show, Reaches-replay_dead,
  Reaches-insert_if_absent,
}

pub data Op : Type 0 where
  op_enqueue : Bool → Message → Op
  op_claim : (ℕ → Bool) → Text → ℕ → ℕ → Pool → (Text → Bool) → Op
  op_renew : Text → Text → ℕ → Op
  op_sent : Text → Text → Op
  op_retry : Text → Text → ℕ → Text → Op
  op_dead : Text → Text → Text → Op
  op_cleanup : ℕ → ℕ → Op
  op_list : Status → Text → ℕ → Op
  op_show : Text → Op
  op_replay : Text → Op
  op_inbox : Bool → Text → Text → Op

-- An operation, the time that has passed before it, and the failures that it will meet.
pub record Call : Type 0 where
  pub op : Op
  pub elapsed : ℕ
  pub faults : List Fault

module _ (kind : Kind) (supply : ℕ → Text) where
  unfoldable pub apply : Op → Db → Db
  apply (op_enqueue same_group m) db = (enqueue same_group m db).1
  apply (op_claim done owner limit duration pool locked) db =
      (claim kind supply done owner limit duration pool locked db).1
  apply (op_renew id token duration) db = (renew kind id token duration db).1
  apply (op_sent id token) db = (mark_sent id token db).1
  apply (op_retry id token duration summary) db = (mark_retry kind id token duration summary db).1
  apply (op_dead id token summary) db = (mark_dead id token summary db).1
  apply (op_cleanup retention limit) db = (cleanup_sent retention limit db).1
  apply (op_list status topic limit) db = (list status topic limit db).1
  apply (op_show id) db = (show id db).1
  apply (op_replay id) db = (replay_dead id db).1
  apply (op_inbox same_group consumer id) db = (insert_if_absent same_group consumer id db).1

  unfoldable pub run : List Call → Db → Db
  unfolding apply
  run [] db = db
  run (c ∷ cs) db = run cs (apply c.op (record db { now = db.now + c.elapsed; faults = c.faults }))

  Reach-apply : (op : Op) (db : Db) → Reach supply db (apply op db)
  unfolding apply
  Reach-apply (op_enqueue same_group m) db = (Reaches-enqueue supply same_group m).at db
  Reach-apply (op_claim done owner limit duration pool locked) db =
      (Reaches-claim supply kind done owner limit duration pool locked).at db
  Reach-apply (op_renew id token duration) db = (Reaches-renew supply kind id token duration).at db
  Reach-apply (op_sent id token) db = (Reaches-mark_sent supply id token).at db
  Reach-apply (op_retry id token duration summary) db =
      (Reaches-mark_retry supply kind id token duration summary).at db
  Reach-apply (op_dead id token summary) db = (Reaches-mark_dead supply id token summary).at db
  Reach-apply (op_cleanup retention limit) db = (Reaches-cleanup_sent supply retention limit).at db
  Reach-apply (op_list status topic limit) db = (Reaches-list supply status topic limit).at db
  Reach-apply (op_show id) db = (Reaches-show supply id).at db
  Reach-apply (op_replay id) db = (Reaches-replay_dead supply id).at db
  Reach-apply (op_inbox same_group consumer id) db =
      (Reaches-insert_if_absent supply same_group consumer id).at db

  -- Whatever operations run, on every path and with any failing statements, the database they
  -- leave is reached from the one they found by steps of the change relation alone.
  pub run-Reach : (cs : List Call) (db : Db) → Reach supply db (run cs db)
  unfolding run
  run-Reach [] db = here
  run-Reach (c ∷ cs) db =
      let ticked : Db = record db { now = db.now + c.elapsed; faults = c.faults } in
      Reach-trans supply (next here (waits {u = ticked} refl refl (omega arith) (omega arith)))
        (Reach-trans supply (Reach-apply c.op ticked) (run-Reach cs (apply c.op ticked)))
