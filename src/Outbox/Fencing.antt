-- ===== src/Outbox/Fencing.antt =====
-- A lease that is lost stays lost: tokens are never given out twice.
use cool_admin_go_next.Common.{
  ℕ, ◌<◌, ◌≡◌, refl, inl, inr, Bool, false, List, [], ◌∷◌, Text, arith, any, count, text_eq,
  text_eq_iff, err, Bool-cases, leb,
}
use cool_admin_go_next.Outbox.Record.{Row, claim_lost}
use cool_admin_go_next.Outbox.Statements.{
  Kind, update, held_by, renew_set, sent_set, retry_set, dead_set, claim_set, replay_set,
  enqueue_row,
}
use cool_admin_go_next.Outbox.Store.{
  Db, Tx, plain, exec_claim_update, renew, mark_sent, mark_retry, mark_dead,
}
use cool_admin_go_next.Outbox.Change.Rules.{
  Change, waits, enters, claims, renews, sends, retries, buries, purges, replays, marks, Reach,
  here, next, Reach-grows,
}
use cool_admin_go_next.Outbox.Runs.{Call, run, run-Reach}
use cool_admin_go_next.Outbox.Rows.{any-update-false, any-delete, any-append}

-- Whether the message is leased under the token.
abbrev pub is_held : Text → Text → Db → Bool
is_held id token db = any (held_by id token) db.rows

module _ (supply : ℕ → Text) (fresh : (i j : ℕ) → supply i ≡ supply j → i ≡ j) (id : Text)
    (k : ℕ) where
  claim_token_differs :
      (kind : Kind) (now : ℕ) (owner : Text) (duration : ℕ) (n : ℕ) (pool : _) (r : Row)
      → k < n
      → held_by id (supply k) (claim_set kind pool now owner (supply n) duration r) ≡ false
  unfolding claim_set
  claim_token_differs kind now owner duration n pool r h =
      elim (Bool-cases (text_eq (supply n) (supply k))) [
        | inl e ↦ absurd (omega (arith, fresh n k ((text_eq_iff (supply n) (supply k)).0 e)))
        | inr e ↦ ground arith
      ]

  Change-lost :
      {a b : Db}
      → Change supply a b
      → k < a.drawn
      → is_held id (supply k) a ≡ false
      → is_held id (supply k) b ≡ false
  unfolding renew_set sent_set retry_set dead_set replay_set enqueue_row
  Change-lost {a} (waits e _ _ _) d h = rw e h
  Change-lost {a} (enters m _) d h =
      ground (arith, any-append (held_by id (supply k)) a.rows (enqueue_row a.now m ∷ []))
  Change-lost {a} (claims kind pool owner duration i) d h =
      any-update-false _ _ _ a.rows
        (λ r _ _. claim_token_differs kind a.now owner duration a.drawn pool r d) h
  Change-lost {a} (renews kind i token duration) d h = any-update-false _ _ _ a.rows (λ r _ n. n) h
  Change-lost {a} (sends i token) d h = any-update-false _ _ _ a.rows (λ r _ n. ground arith) h
  Change-lost {a} (retries kind i token duration summary) d h =
      any-update-false _ _ _ a.rows (λ r _ n. ground arith) h
  Change-lost {a} (buries i token summary) d h =
      any-update-false _ _ _ a.rows (λ r _ n. ground arith) h
  Change-lost {a} (purges retention i) d h = any-delete _ _ a.rows h
  Change-lost {a} (replays i) d h = any-update-false _ _ _ a.rows (λ r _ n. ground arith) h
  Change-lost {a} (marks consumer i _) d h = h

  Reach-lost :
      {a b : Db}
      → Reach supply a b
      → k < a.drawn
      → is_held id (supply k) a ≡ false
      → is_held id (supply k) b ≡ false
  Reach-lost here d h = h
  Reach-lost (next r s) d h = Change-lost s (omega (arith, Reach-grows supply r)) (Reach-lost r d h)

-- An update that no row fits changes nothing and reports the loss.
count_none : (test : Row → Bool) (rows : List Row) → any test rows ≡ false → count test rows ≡ 0
count_none test [] h = refl
count_none test (r ∷ rows) h = ground (arith, count_none test rows)

update_none :
    (test : Row → Bool) (set : Row → Row) (rows : List Row)
    → any test rows ≡ false
    → update test set rows ≡ rows
unfolding update
update_none test set [] h = refl
update_none test set (r ∷ rows) h = ground (arith, update_none test set rows)

exec_claim_update_none :
    (test : Row → Bool) (set : Row → Row) (db : Db)
    → any test db.rows ≡ false
    → exec_claim_update test set (record db { faults = [] })
      ≡ (err (plain claim_lost), record db { faults = [] })
unfolding exec_claim_update
exec_claim_update_none test set db h =
    rw (count_none test db.rows h, update_none test set db.rows h)

-- The database as it is, with no failure to come.
abbrev pub calm : Db → Db
calm db = record db { faults = [] }

-- The operation reports that the claim is lost and leaves the database as it is.
abbrev pub Loses : Tx (Unit {0}) → Db → Type 0
Loses m db = m db ≡ (err (plain claim_lost), db)

leb_zero : (n : ℕ) → 0 < n → leb n 0 ≡ false
leb_zero n h = ground arith

-- Once the token that was drawn as number `k` no longer holds the message, whatever operations run
-- after that, with whatever failing statements and however long they take, none of its holder's
-- operations has any effect: each of them, if its statement runs, reports that the claim is lost
-- and leaves the database as it is. This needs a random source that never repeats a token.
pub run-fenced :
    (kind : Kind) (supply : ℕ → Text) (cs : List Call) (db : Db) (id : Text) (k duration : ℕ)
    (summary : Text)
    → ((i j : ℕ) → supply i ≡ supply j → i ≡ j)
    → k < db.drawn
    → is_held id (supply k) db ≡ false
    → 0 < duration
    → let later = calm (run kind supply cs db) in
      Loses (mark_sent id (supply k)) later
      × Loses (mark_retry kind id (supply k) duration summary) later
      × Loses (mark_dead id (supply k) summary) later
      × Loses (renew kind id (supply k) duration) later
unfolding mark_sent mark_retry mark_dead renew
run-fenced kind supply cs db id k duration summary fresh drawn h positive =
    let db' = run kind supply cs db in
    let gone : is_held id (supply k) db' ≡ false =
      Reach-lost supply fresh id k (run-Reach kind supply cs db) drawn h in
    (
      exec_claim_update_none _ _ db' gone,
      exec_claim_update_none _ _ db' gone,
      exec_claim_update_none _ _ db' gone,
      rw (leb_zero duration positive) (exec_claim_update_none _ _ db' gone),
    )
