-- ===== src/Outbox/Claims/Loop.antt =====
-- The loop over the candidates, the transaction around it and the repeated attempts.
use cool_admin_go_next.Common.{
  ℕ, suc, ◌≤◌, ◌<◌, ◌≡◌, refl, sym, ◌∙◌, ap, Bool, true, false, ◌||◌, List, [], ◌∷◌, ◌++◌, Text,
  arith, any, All, All-append, count, Result, ok, err, leb, if◌then◌else◌, length, length-append,
  length-map, length-take_le, map, subst, filter,
}
use cool_admin_go_next.Outbox.Record.{Row, Claimed, invalid_argument, blank}
use cool_admin_go_next.Outbox.Statements.{
  Kind, is_sqlite, Pool, claim_where, claim_set, select, order_by, claim_candidates, claim_order,
}
use cool_admin_go_next.Outbox.Store.{
  Db, Tx, Failure, ◌>>=◌, pure, raise, query, claimed_rows, claim_one, claim_each, claim_within,
  claim, max_attempts, retry_busy, transaction, exec_update, next_fault,
}
use cool_admin_go_next.Outbox.Rows.{Distinct, Distinct-update}
use cool_admin_go_next.Outbox.Inversion.{
  pair-eq, continue-eq-ok, answer-eq-ok, settle-eq-ok, retry_busy-eq-ok,
}
use cool_admin_go_next.Outbox.Claims.Rows.{claim-due}
use cool_admin_go_next.Outbox.Claims.Granted.{
  Granted, Progress, grant, after_update, OneClaim, skipped, claimed, claimed_rows-OneClaim,
}

list_of : Result Failure (List Claimed) → List Claimed
list_of (ok l) = l
list_of (err _) = []

module _ (kind : Kind) (supply : ℕ → Text) (owner : Text) (duration : ℕ) (pool : Pool)
    (positive : 0 < duration) where
  abbrev Makes : Db → Db → List Claimed → ℕ → Type 0
  Makes = Progress kind supply owner duration pool positive

  Distinct-after :
      (id : Text) (db : Db)
      → Distinct db.rows
      → Distinct (after_update kind supply owner duration pool positive id db)
  unfolding claim_set
  Distinct-after id db keyed = Distinct-update _ _ db.rows (λ r. refl) keyed

  claim_one-Progress :
      (id : Text) (db : Db) {cs : List Claimed} {db' : Db}
      → Distinct db.rows
      → claim_one kind supply owner duration pool id db ≡ (ok cs, db')
      → Makes db db' cs 1
  unfolding claim_one
  claim_one-Progress id db {cs} {db'} keyed h =
      let token = supply db.drawn in
      let (n, mid, exec, rest) =
        continue-eq-ok
          (exec_update (claim_where pool db.now id)
            (claim_set kind pool db.now owner token duration) (record db { drawn = suc db.drawn }))
          (claimed_rows kind id token) h in
      let (number, new) =
        answer-eq-ok (next_fault db.faults) (count (claim_where pool db.now id) db.rows) _ _ exec in
      go cs db' n mid number (ap (λ d. d.rows) new) (ap (λ d. d.now) new)
        (claimed_rows-OneClaim kind id token n mid rest)
    where
      settled :
          (mid db' : Db) (cs : List Claimed)
          → mid.rows ≡ after_update kind supply owner duration pool positive id db
          → mid.now ≡ db.now
          → db'.rows ≡ mid.rows
          → db'.now ≡ mid.now
          → All (Granted kind supply owner duration pool positive db.now db.rows) cs
          → length cs ≤ 1
          → Makes db db' cs 1
      settled mid db' cs rows now rows' now' all few = record {
        now = now' ∙ now;
        keyed = subst Distinct (sym (rows' ∙ rows)) (Distinct-after id db keyed);
        no_new = λ i e.
            subst (λ l. any (claim_where pool db.now i) l ≡ false) (sym (rows' ∙ rows))
              (claim-due kind owner duration db.now pool i id (supply db.drawn) db.rows positive e);
        granted = all;
        few = few;
      }

      go :
          (cs : List Claimed) (db' : Db) (n : ℕ) (mid : Db)
          → n ≡ count (claim_where pool db.now id) db.rows
          → mid.rows ≡ after_update kind supply owner duration pool positive id db
          → mid.now ≡ db.now
          → OneClaim id (supply db.drawn) n mid db' cs
          → Makes db db' cs 1
      go cs db' n mid number rows now (skipped e) =
          settled mid db' [] rows now (ap (λ d. d.rows) e) (ap (λ d. d.now) e) tt (omega arith)
      go cs db' n mid number rows now (claimed c one back) =
          settled mid db' (c ∷ []) rows now back.same_rows back.same_now
            (
              grant kind supply owner duration pool positive id (supply db.drawn) db c mid db' keyed
                  (sym number ∙ one) rows back,
              tt,
            )
            (omega arith)

  -- A later round's records were due before the first.
  widen :
      (now : ℕ) (rows rows' : List Row) (cs : List Claimed)
      → ((i : Text)
          → any (claim_where pool now i) rows ≡ false
          → any (claim_where pool now i) rows' ≡ false)
      → All (Granted kind supply owner duration pool positive now rows') cs
      → All (Granted kind supply owner duration pool positive now rows) cs
  widen now rows rows' [] f h = tt
  widen now rows rows' (c ∷ cs) f h = (
    record {
      lease = h.0.lease;
      token = h.0.token;
      was_due = was (any (claim_where pool now c.row.message_id) rows) refl;
    },
    widen now rows rows' cs f h.1,
  )
    where
      was :
          (b : Bool)
          → any (claim_where pool now c.row.message_id) rows ≡ b
          → any (claim_where pool now c.row.message_id) rows ≡ true
      was true e = e
      was false e = absurd (clash (f c.row.message_id e) h.0.was_due)
        where
          clash : {b : Bool} → b ≡ false → b ≡ true → ⊥
          clash p q = cc

  claim_each-Progress :
      (ids : List Text) (db : Db) {cs : List Claimed} {db' : Db}
      → Distinct db.rows
      → claim_each kind supply owner duration pool ids db ≡ (ok cs, db')
      → Makes db db' cs (length ids)
  unfolding claim_each list_of
  claim_each-Progress [] db {cs} {db'} keyed h =
      subst (λ d. Makes db d cs 0) (pair-eq h).1
        (subst (λ l. Makes db db l 0) (ap list_of (pair-eq h).0)
          (record {
            now = refl;
            keyed = keyed;
            no_new = λ i e. e;
            granted = tt;
            few = omega arith;
          }))
  claim_each-Progress (id ∷ ids) db {cs} {db'} keyed h =
      let (first, mid, one, h1) =
        continue-eq-ok (claim_one kind supply owner duration pool id db)
          (λ first. claim_each kind supply owner duration pool ids >>= λ rest. pure (first ++ rest))
          h in
      let (rest, end, others, h2) =
        continue-eq-ok (claim_each kind supply owner duration pool ids mid)
          (λ rest. pure (first ++ rest)) h1 in
      let p = claim_one-Progress id db keyed one in
      let q = claim_each-Progress ids mid p.keyed others in
      subst (λ d. Makes db d cs (length (id ∷ ids))) (pair-eq h2).1
        (subst (λ l. Makes db end l (length (id ∷ ids))) (ap list_of (pair-eq h2).0)
          (join first rest mid end p q))
    where
      join :
          (first rest : List Claimed) (mid end : Db)
          → Makes db mid first 1
          → Makes mid end rest (length ids)
          → Makes db end (first ++ rest) (length (id ∷ ids))
      join first rest mid end p q =
          let no_new : (i : Text)
              → any (claim_where pool db.now i) mid.rows ≡ false
              → any (claim_where pool db.now i) end.rows ≡ false =
            subst
              (λ t.
                (i : Text)
                → any (claim_where pool t i) mid.rows ≡ false
                → any (claim_where pool t i) end.rows ≡ false)
              p.now q.no_new in
          let granted : All (Granted kind supply owner duration pool positive db.now mid.rows)
              rest =
            subst (λ t. All (Granted kind supply owner duration pool positive t mid.rows) rest)
              p.now q.granted in
          record {
            now = q.now ∙ p.now;
            keyed = q.keyed;
            no_new = λ i e. no_new i (p.no_new i e);
            granted =
                All-append _ first rest p.granted
                  (widen db.now db.rows mid.rows rest p.no_new granted);
            few = omega (arith, length-append first rest, p.few, q.few);
          }

  -- The candidates that the query read number at most `limit`.
  claim_within-Progress :
      (locked : Text → Bool) (limit : ℕ) (db : Db) {cs : List Claimed} {db' : Db}
      → Distinct db.rows
      → claim_within kind supply owner duration pool locked limit db ≡ (ok cs, db')
      → (n : ℕ) × (n ≤ limit) × (m : Db) × (m.rows ≡ db.rows) × Makes m db' cs n
  unfolding claim_within select
  claim_within-Progress locked limit db {cs} {db'} keyed h =
      let (found, mid, q, rest) =
        continue-eq-ok
          (query
            (λ d. select (claim_candidates kind locked pool d.now) (claim_order pool) limit d.rows)
            db)
          (λ found. claim_each kind supply owner duration pool (map (λ r. r.message_id) found)) h in
      let (list, same) =
        answer-eq-ok (next_fault db.faults)
          (select (claim_candidates kind locked pool db.now) (claim_order pool) limit db.rows) _ _
          q in
      let rows : mid.rows ≡ db.rows = ap (λ d. d.rows) same in
      (
        length (map (λ r. r.message_id) found),
        omega (
          arith,
          length-map (λ (r : Row). r.message_id) found,
          ap length list,
          length-take_le limit (
              order_by (claim_order pool)
                (filter (claim_candidates kind locked pool db.now) db.rows)),
        ),
        mid,
        rows,
        claim_each-Progress (map (λ r. r.message_id) found) mid (subst Distinct (sym rows) keyed)
            rest,
      )

-- A claim that succeeds returns at most `limit` records. Each is leased, to the caller, under the
-- token that it carries, until the claim's moment plus the lease's duration, and its message was
-- due at that moment in the table that the claim met: ready and past its time, or leased and
-- expired, as the kind of claim asks. This holds with any failing statements and any number of
-- repeated attempts, for a table whose message ids are distinct.
pub claim-granted :
    (kind : Kind) (supply : ℕ → Text) (done : ℕ → Bool) (owner : Text) (limit duration : ℕ)
    (pool : Pool) (locked : Text → Bool) (db : Db) {cs : List Claimed} {db' : Db}
    (positive : 0 < duration)
    → Distinct db.rows
    → claim kind supply done owner limit duration pool locked db ≡ (ok cs, db')
    → (length cs ≤ limit)
      × All (Granted kind supply owner duration pool positive db'.now db.rows) cs
      × Distinct db'.rows
unfolding claim
claim-granted kind supply done owner limit duration pool locked db {cs} {db'} positive keyed h =
    go (blank owner || leb limit 0 || leb duration 0) (is_sqlite kind) h
  where
    work : Tx (List Claimed)
    work = claim_within kind supply owner duration pool locked limit

    result :
        (start : Db)
        → start.rows ≡ db.rows
        → work start ≡ (ok cs, db')
        → (length cs ≤ limit)
          × All (Granted kind supply owner duration pool positive db'.now db.rows) cs
          × Distinct db'.rows
    result start rows t =
        let (n, few, mid, same, p) =
          claim_within-Progress kind supply owner duration pool positive locked limit start
            (subst Distinct (sym rows) keyed) t in
        (
          omega (arith, p.few),
          subst (λ r. All (Granted kind supply owner duration pool positive db'.now r) cs)
              (same ∙ rows)
              (subst (λ t. All (Granted kind supply owner duration pool positive t mid.rows) cs)
                (sym p.now) p.granted),
          p.keyed,
        )

    go :
        (a b : Bool)
        → (if a
              then raise invalid_argument
              else if b
              then retry_busy done max_attempts 0 work
              else transaction work)
            db
          ≡ (ok cs, db')
        → (length cs ≤ limit)
          × All (Granted kind supply owner duration pool positive db'.now db.rows) cs
          × Distinct db'.rows
    go true b t = absurd (cc (pair-eq t).0)
    go false true t =
        let (start, rows, works) = retry_busy-eq-ok done max_attempts 0 work db t in
        result start rows works
    go false false t = result db refl (settle-eq-ok db (work db) t)
