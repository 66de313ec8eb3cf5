-- ===== src/Outbox/Change/Rules.antt =====
-- The step relation of the tables, and how the monad's operators compose it.
use cool_admin_go_next.Common.{
  ℕ, suc, ◌≤◌, ◌≡◌, refl, Bool, true, false, [], ◌∷◌, ◌++◌, Text, Result, ok, err, arith, any,
  if◌then◌else◌,
}
use cool_admin_go_next.Outbox.Record.{Message, StoreError}
use cool_admin_go_next.Outbox.Statements.{
  Kind, Pool, update, delete, claim_where, claim_set, held_by, renew_set, sent_set, retry_set,
  dead_set, cleanup_where, is_dead_id, replay_set, enqueue_row, has_id,
}
use cool_admin_go_next.Outbox.Store.{
  Db, Tx, Failure, Fault, fine, busy, broken, unread, continue, ◌>>=◌, pure, raise, statement,
  answer, query, transaction, settle, next_fault, later_faults, lift, marked,
}

module _ (supply : ℕ → Text) where
  pub data Change (db : Db) : Db → Type 0 where
    -- time passes, tokens are drawn, statements fail: the tables stay
    waits :
        {u : Db}
        → u.rows ≡ db.rows
        → u.inbox ≡ db.inbox
        → db.drawn ≤ u.drawn
        → db.now ≤ u.now
        → Change db u
    enters :
        (m : Message)
        → any (has_id m.message_id) db.rows ≡ false
        → Change db (record db { rows = db.rows ++ enqueue_row db.now m ∷ [] })
    claims :
        (kind : Kind) (pool : Pool) (owner : Text) (duration : ℕ) (id : Text)
        → Change db (record db {
          rows =
              update
                (claim_where pool db.now id)
                (claim_set kind pool db.now owner (supply db.drawn) duration)
                db.rows;
          drawn = suc db.drawn;
        })
    renews :
        (kind : Kind) (id token : Text) (duration : ℕ)
        → Change db (record db {
          rows = update (held_by id token) (renew_set kind db.now duration) db.rows;
        })
    sends :
        (id token : Text)
        → Change db (record db { rows = update (held_by id token) (sent_set db.now) db.rows })
    retries :
        (kind : Kind) (id token : Text) (duration : ℕ) (summary : Text)
        → Change db (record db {
          rows = update (held_by id token) (retry_set kind db.now duration summary) db.rows;
        })
    buries :
        (id token summary : Text)
        → Change db
            (record db { rows = update (held_by id token) (dead_set db.now summary) db.rows })
    purges :
        (retention : ℕ) (id : Text)
        → Change db (record db { rows = delete (cleanup_where db.now retention id) db.rows })
    replays :
        (id : Text)
        → Change db (record db { rows = update (is_dead_id id) (replay_set db.now) db.rows })
    marks :
        (consumer id : Text)
        → marked consumer id db ≡ false
        → Change db (record db { inbox = (consumer, id) ∷ db.inbox })

  pub data Reach (db : Db) : Db → Type 0 where
    here : Reach db db
    next : {u v : Db} → Reach db u → Change u v → Reach db v

  pub Reach-trans : {a b c : Db} → Reach a b → Reach b c → Reach a c
  Reach-trans p here = p
  Reach-trans p (next q s) = next (Reach-trans p q) s

  Change-grows : {a b : Db} → Change a b → (a.drawn ≤ b.drawn) × (a.now ≤ b.now)
  Change-grows (waits _ _ d n) = (d, n)
  Change-grows (claims _ _ _ _ _) = (omega arith, omega arith)
  Change-grows (enters _ _) = (omega arith, omega arith)
  Change-grows (renews _ _ _ _) = (omega arith, omega arith)
  Change-grows (sends _ _) = (omega arith, omega arith)
  Change-grows (retries _ _ _ _ _) = (omega arith, omega arith)
  Change-grows (buries _ _ _) = (omega arith, omega arith)
  Change-grows (purges _ _) = (omega arith, omega arith)
  Change-grows (replays _) = (omega arith, omega arith)
  Change-grows (marks _ _ _) = (omega arith, omega arith)

  pub Reach-grows : {a b : Db} → Reach a b → (a.drawn ≤ b.drawn) × (a.now ≤ b.now)
  Reach-grows here = (omega arith, omega arith)
  Reach-grows (next r s) =
      let (d, n) = Reach-grows r in let (d', n') = Change-grows s in (omega arith, omega arith)

  -- What the rest of the faults does to a database: nothing that a change does not allow.
  pub record Reaches {A : Type 0} (m : Tx A) : Type 0 where
    pub at : (db : Db) → Reach db (m db).1

  pub Reaches-pure : {A : Type 0} (a : A) → Reaches (pure a)
  Reaches-pure a = record { at = λ db. here }

  pub Reaches-raise : {A : Type 0} (e : StoreError) → Reaches (raise {A = A} e)
  Reaches-raise e = record { at = λ db. here }

  pub Reach-continue :
      {A B : Type 0} {db : Db} (r : Result Failure A × Db) (f : A → Tx B)
      → Reach db r.1
      → ((a : A) → Reaches (f a))
      → Reach db (continue r.0 f r.1).1
  Reach-continue (ok a, db') f h q = Reach-trans h ((q a).at db')
  Reach-continue (err e, db') f h q = h

  pub Reaches-bind :
      {A B : Type 0} (m : Tx A) (f : A → Tx B)
      → Reaches m
      → ((a : A) → Reaches (f a))
      → Reaches (m >>= f)
  Reaches-bind m f p q = record { at = λ db. Reach-continue (m db) f (p.at db) q }

  pub Reaches-transaction : {A : Type 0} (m : Tx A) → Reaches m → Reaches (transaction m)
  Reaches-transaction {A} m p = record { at = λ db. go db (m db) (p.at db) }
    where
      go : (db : Db) (r : Result Failure A × Db) → Reach db r.1 → Reach db (settle db r).1
      go db (ok a, db') h = h
      go db (err e, db') h = next here (waits refl refl (Reach-grows h).0 (Reach-grows h).1)

  spent : (db : Db) → Change db (record db { faults = later_faults db.faults })
  spent db = waits refl refl (omega arith) (omega arith)

  -- A statement whose change the relation allows.
  pub Reach-answer :
      {A : Type 0} (f : Fault) (a : A) {db old new : Db}
      → Reach db old
      → Reach db new
      → Reach db (answer f a old new).1
  Reach-answer fine a p q = q
  Reach-answer busy a p q = p
  Reach-answer broken a p q = p
  Reach-answer unread a p q = q

  pub Reach-statement :
      {A : Type 0} (a : A) (change : Db → Db) (db : Db)
      → Change
          (record db { faults = later_faults db.faults })
          (change (record db { faults = later_faults db.faults }))
      → Reach db (statement a change db).1
  Reach-statement a change db s =
      Reach-answer (next_fault db.faults) a (next here (spent db)) (next (next here (spent db)) s)

  pub Reaches-query : {A : Type 0} (f : Db → A) → Reaches (query f)
  Reaches-query f = record {
    at = λ db. Reach-statement (f db) (λ d. d) db (waits refl refl (omega arith) (omega arith));
  }

  pub Reaches-if :
      {A : Type 0} (b : Bool) (m n : Tx A) → Reaches m → Reaches n → Reaches (if b then m else n)
  Reaches-if true m n p q = p
  Reaches-if false m n p q = q

  pub Reaches-lift : {A : Type 0} (r : Result StoreError A) → Reaches (lift r)
  Reaches-lift (ok a) = record { at = λ db. here }
  Reaches-lift (err e) = record { at = λ db. here }
