-- ===== src/Outbox/Invariant.antt =====
-- What holds of the tables between any two statements.
use cool_admin_go_next.Common.{
  ℕ, ◌≡◌, refl, Bool, true, false, ◌&&◌, List, Text, arith, Option, none, some, ltb, ◌==◌, All,
  All-append,
}
use cool_admin_go_next.Outbox.Record.{Row, Status, pending, retry, leased, sent, dead, unknown}
use cool_admin_go_next.Outbox.Statements.{
  Kind, Pool, any_due, available, expired, claim_where, claim_set, held_by, renew_set, sent_set,
  retry_set, dead_set, replay_set, enqueue_row,
}
use cool_admin_go_next.Outbox.Store.{Db}
use cool_admin_go_next.Outbox.Change.Rules.{
  Change, waits, enters, claims, renews, sends, retries, buries, purges, replays, marks, Reach,
  here, next,
}
use cool_admin_go_next.Outbox.Runs.{Call, run, run-Reach}
use cool_admin_go_next.Outbox.Rows.{
  Distinct, All-update, All-delete, Distinct-update, Distinct-delete, Distinct-enter,
}

abbrev is_some {ℓ} : {A : Type ℓ} → Option A → Bool
is_some none = false
is_some (some _) = true

abbrev is_none {ℓ} : {A : Type ℓ} → Option A → Bool
is_none none = true
is_none (some _) = false

abbrev is_free : Row → Bool
is_free r = is_none r.lease_owner && is_none r.claim_token && is_none r.lease_expires_at

-- The columns that go with each status.
abbrev shape : Status → Row → Bool
shape pending r = is_free r && is_none r.sent_at && is_none r.last_error && r.attempts == 0
shape retry r = is_free r && is_none r.sent_at
shape leased r =
    is_some r.lease_owner
    && is_some r.claim_token
    && is_some r.lease_expires_at
    && is_none r.sent_at
    && ltb 0 r.attempts
shape sent r = is_free r && is_some r.sent_at && is_none r.last_error && ltb 0 r.attempts
shape dead r = is_free r && is_none r.sent_at && is_some r.last_error && ltb 0 r.attempts
shape (unknown _) r = false

pub record IsConsistent (r : Row) : Type 0 where
  pub shaped : shape r.status r ≡ true

claim-shape :
    (kind : Kind) (pool : Pool) (now : ℕ) (owner id token : Text) (duration : ℕ) (r : Row)
    → claim_where pool now id r ≡ true
    → shape r.status r ≡ true
    → shape leased (claim_set kind pool now owner token duration r) ≡ true
unfolding claim_set
claim-shape kind any_due now owner id token duration r w h = ground arith
claim-shape kind available now owner id token duration r w h = ground arith
claim-shape kind expired now owner id token duration r w h = ground arith

renew-shape :
    (kind : Kind) (now : ℕ) (id token : Text) (duration : ℕ) (r : Row)
    → held_by id token r ≡ true
    → shape r.status r ≡ true
    → shape (renew_set kind now duration r).status (renew_set kind now duration r) ≡ true
unfolding renew_set
renew-shape kind now id token duration r w h = ground arith

sent-shape :
    (now : ℕ) (id token : Text) (r : Row)
    → held_by id token r ≡ true
    → shape r.status r ≡ true
    → shape sent (sent_set now r) ≡ true
unfolding sent_set
sent-shape now id token r w h = ground arith

retry-shape :
    (kind : Kind) (now : ℕ) (id token : Text) (duration : ℕ) (summary : Text) (r : Row)
    → held_by id token r ≡ true
    → shape retry (retry_set kind now duration summary r) ≡ true
unfolding retry_set
retry-shape kind now id token duration summary r w = refl

dead-shape :
    (now : ℕ) (id token summary : Text) (r : Row)
    → held_by id token r ≡ true
    → shape r.status r ≡ true
    → shape dead (dead_set now summary r) ≡ true
unfolding dead_set
dead-shape now id token summary r w h = ground arith

-- Every row has the columns of its status, and the message ids are distinct.
pub record IsSound (rows : List Row) : Type 0 where
  pub consistent : All IsConsistent rows
  pub keyed : Distinct rows

module _ (supply : ℕ → Text) where
  Change-IsConsistent :
      {a b : Db} → Change supply a b → All IsConsistent a.rows → All IsConsistent b.rows
  unfolding claim_set renew_set sent_set retry_set dead_set replay_set enqueue_row
  Change-IsConsistent {a} (waits e _ _ _) h = rw e h
  Change-IsConsistent {a} (enters m _) h =
      All-append IsConsistent a.rows _ h (record { shaped = refl }, tt)
  Change-IsConsistent {a} (claims kind pool owner duration id) h =
      All-update IsConsistent _ _ a.rows
        (λ r w c. record {
          shaped = claim-shape kind pool a.now owner id (supply a.drawn) duration r w c.shaped;
        })
        h
  Change-IsConsistent {a} (renews kind id token duration) h =
      All-update IsConsistent _ _ a.rows
        (λ r w c. record { shaped = renew-shape kind a.now id token duration r w c.shaped }) h
  Change-IsConsistent {a} (sends id token) h =
      All-update IsConsistent _ _ a.rows
        (λ r w c. record { shaped = sent-shape a.now id token r w c.shaped }) h
  Change-IsConsistent {a} (retries kind id token duration summary) h =
      All-update IsConsistent _ _ a.rows (λ r w c. record { shaped = refl }) h
  Change-IsConsistent {a} (buries id token summary) h =
      All-update IsConsistent _ _ a.rows
        (λ r w c. record { shaped = dead-shape a.now id token summary r w c.shaped }) h
  Change-IsConsistent {a} (purges retention id) h = All-delete IsConsistent _ a.rows h
  Change-IsConsistent {a} (replays id) h =
      All-update IsConsistent _ _ a.rows (λ r w c. record { shaped = refl }) h
  Change-IsConsistent {a} (marks consumer id _) h = h

  Change-keyed : {a b : Db} → Change supply a b → Distinct a.rows → Distinct b.rows
  unfolding claim_set renew_set sent_set retry_set dead_set replay_set enqueue_row
  Change-keyed {a} (waits e _ _ _) h = rw e h
  Change-keyed {a} (enters m new) h = Distinct-enter a.rows (enqueue_row a.now m) new h
  Change-keyed {a} (claims kind pool owner duration id) h = Distinct-update _ _ a.rows (λ r. refl) h
  Change-keyed {a} (renews kind id token duration) h = Distinct-update _ _ a.rows (λ r. refl) h
  Change-keyed {a} (sends id token) h = Distinct-update _ _ a.rows (λ r. refl) h
  Change-keyed {a} (retries kind id token duration summary) h =
      Distinct-update _ _ a.rows (λ r. refl) h
  Change-keyed {a} (buries id token summary) h = Distinct-update _ _ a.rows (λ r. refl) h
  Change-keyed {a} (purges retention id) h = Distinct-delete _ a.rows h
  Change-keyed {a} (replays id) h = Distinct-update _ _ a.rows (λ r. refl) h
  Change-keyed {a} (marks consumer id _) h = h

  pub Reach-IsSound : {a b : Db} → Reach supply a b → IsSound a.rows → IsSound b.rows
  Reach-IsSound here h = h
  Reach-IsSound (next r s) h =
      let before = Reach-IsSound r h in
      record {
        consistent = Change-IsConsistent s before.consistent;
        keyed = Change-keyed s before.keyed;
      }

-- From a sound table, whatever operations run and whatever statements fail, every row has exactly
-- the columns that its status calls for (a lease's owner, token, deadline and at least one attempt
-- while it is leased, none of them otherwise; a sending time if and only if it is sent; an error if
-- it is dead), no status is unknown, and no two rows have the same message id.
pub run-IsSound :
    (kind : Kind) (supply : ℕ → Text) (cs : List Call) (db : Db)
    → IsSound db.rows
    → IsSound (run kind supply cs db).rows
run-IsSound kind supply cs db h = Reach-IsSound supply (run-Reach kind supply cs db) h
