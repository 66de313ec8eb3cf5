-- ===== src/Outbox/Claims/Granted.antt =====
-- The records that a claim returns.
use cool_admin_go_next.Common.{
  ℕ, ◌≤◌, ◌<◌, ◌≡◌, refl, sym, ◌∙◌, ap, Bool, true, false, ◌&&◌, List, [], ◌∷◌, Text, arith, Option,
  none, some, any, All, count, filter, text_eq_iff, Result, ok, err, ◌==◌, if◌then◌else◌, length,
  not, subst,
}
use cool_admin_go_next.Outbox.Record
use cool_admin_go_next.Outbox.Record.{
  Row, Claimed, StoreError, valid_message_id, valid_status, invalid_row, leased, to_record,
  broken_invariant, invalid_argument, blank, token_missed,
}
use cool_admin_go_next.Outbox.Statements.{
  Kind, is_sqlite, Pool, holds, held_by, claim_where, claim_set, update,
}
use cool_admin_go_next.Outbox.Store.{
  Db, Failure, ◌>>=◌, pure, raise, query, lift, head_or_missed, read_claimed, claimed_rows,
  next_fault,
}
use cool_admin_go_next.Outbox.Rows.{Distinct}
use cool_admin_go_next.Outbox.Inversion.{pair-eq, continue-eq-ok, answer-eq-ok}
use cool_admin_go_next.Outbox.Claims.Rows.{filter-head, only_row, count_one, Leased, update-Leased}

-- A record read back: the first row that is held, and the clock and the rows stay.
pub record ReadBack (id token : Text) (c : Claimed) (mid db' : Db) : Type 0 where
  pub rest : List Row
  pub found : filter (held_by id token) mid.rows ≡ c.row ∷ rest
  pub token_text : c.claim_token ≡ Record.token_text c.row.claim_token
  pub same_rows : db'.rows ≡ mid.rows
  pub same_now : db'.now ≡ mid.now

-- A row that passes the checks is returned as it is.
lift-to_record :
    (r : Row) (m : Db) {c : Claimed} {db' : Db}
    → lift (to_record r) m ≡ (ok c, db')
    → (c.row ≡ r) × (c.claim_token ≡ Record.token_text r.claim_token) × (db' ≡ m)
unfolding to_record
lift-to_record r m h = go (valid_message_id r.message_id) (valid_status r.status) h
  where
    go :
        (a b : Bool) {c : Claimed} {db' : Db}
        → lift
            (if not a
              then err invalid_row
              else if not b
              then err invalid_row
              else ok (record { row = r; claim_token = Record.token_text r.claim_token }))
            m
          ≡ (ok c, db')
        → (c.row ≡ r) × (c.claim_token ≡ Record.token_text r.claim_token) × (db' ≡ m)
    go true true h =
        (sym (ap row_of (pair-eq h).0), sym (ap token_of (pair-eq h).0), sym (pair-eq h).1)
      where
        row_of : Result Failure Claimed → Row
        row_of (ok c) = c.row
        row_of (err _) = r

        token_of : Result Failure Claimed → Text
        token_of (ok c) = c.claim_token
        token_of (err _) = []
    go true false h = absurd (cc (pair-eq h).0)
    go false b h = absurd (cc (pair-eq h).0)

read_claimed-ReadBack :
    (id token : Text) (mid : Db) {c : Claimed} {db' : Db}
    → read_claimed id token mid ≡ (ok c, db')
    → ReadBack id token c mid db'
unfolding read_claimed
read_claimed-ReadBack id token mid {c} {db'} h =
    let (found, m1, q, h1) =
      continue-eq-ok (query (λ db. filter (held_by id token) db.rows) mid)
        (λ found. head_or_missed found >>= λ r. lift (to_record r)) h in
    let (eq, em) =
      answer-eq-ok (next_fault mid.faults) (filter (held_by id token) mid.rows) _ _ q in
    go found m1 (sym eq) (ap (λ d. d.rows) em) (ap (λ d. d.now) em) h1
  where
    go :
        (found : List Row) (m1 : Db)
        → filter (held_by id token) mid.rows ≡ found
        → m1.rows ≡ mid.rows
        → m1.now ≡ mid.now
        → (head_or_missed found >>= λ r. lift (to_record r)) m1 ≡ (ok c, db')
        → ReadBack id token c mid db'
    go [] m1 e rows now t = absurd (cc (pair-eq t).0)
    go (r ∷ rest) m1 e rows now t =
        let (row, text, same) = lift-to_record r m1 t in
        record {
          rest = rest;
          found = e ∙ ap (λ x. x ∷ rest) (sym row);
          token_text = text ∙ ap (λ x. Record.token_text x.claim_token) (sym row);
          same_rows = ap (λ d. d.rows) same ∙ rows;
          same_now = ap (λ d. d.now) same ∙ now;
        }

-- What follows the update of one candidate.
pub data OneClaim (id token : Text) (n : ℕ) (mid db' : Db) : List Claimed → Type 0 where
  skipped : db' ≡ mid → OneClaim id token n mid db' []
  claimed :
      (c : Claimed) → n ≡ 1 → ReadBack id token c mid db' → OneClaim id token n mid db' (c ∷ [])

pub claimed_rows-OneClaim :
    (kind : Kind) (id token : Text) (n : ℕ) (mid : Db) {cs : List Claimed} {db' : Db}
    → claimed_rows kind id token n mid ≡ (ok cs, db')
    → OneClaim id token n mid db' cs
unfolding claimed_rows
claimed_rows-OneClaim kind id token n mid {cs} {db'} h =
    go (n == 0 && is_sqlite kind) (n == 1) refl h
  where
    list_of : Result Failure (List Claimed) → List Claimed
    list_of (ok l) = l
    list_of (err _) = []

    go :
        (a b : Bool)
        → (n == 1) ≡ b
        → (if a
              then pure []
              else if b
              then (read_claimed id token >>= λ r. pure (r ∷ []))
              else raise (broken_invariant n))
            mid
          ≡ (ok cs, db')
        → OneClaim id token n mid db' cs
    go true b e t =
        subst (OneClaim id token n mid db') (ap list_of (pair-eq t).0) (skipped (sym (pair-eq t).1))
    go false false e t = absurd (cc (pair-eq t).0)
    go false true e t =
        let (c, m1, read, last) =
          continue-eq-ok (read_claimed id token mid) (λ r. pure (r ∷ [])) t in
        subst (OneClaim id token n mid db') (ap list_of (pair-eq last).0) (
          claimed c (ground arith) (
            subst (ReadBack id token c mid) (pair-eq last).1
              (read_claimed-ReadBack id token mid read)))

module _ (kind : Kind) (supply : ℕ → Text) (owner : Text) (duration : ℕ) (pool : Pool)
    (positive : 0 < duration) where
  -- A record that a claim returns at the clock's `now`, out of the rows that it met.
  pub record Granted (now : ℕ) (rows : List Row) (c : Claimed) : Type 0 where
    pub lease : Leased kind owner duration now c.row
    pub token : c.row.claim_token ≡ some c.claim_token
    pub was_due : any (claim_where pool now c.row.message_id) rows ≡ true

  -- What one round, and the loop, leave to the next.
  pub record Progress (db db' : Db) (cs : List Claimed) (most : ℕ) : Type 0 where
    pub now : db'.now ≡ db.now
    pub keyed : Distinct db'.rows
    pub no_new :
        (i : Text)
        → any (claim_where pool db.now i) db.rows ≡ false
        → any (claim_where pool db.now i) db'.rows ≡ false
    pub granted : All (Granted db.now db.rows) cs
    pub few : length cs ≤ most

  -- The update of one candidate, its token drawn before.
  abbrev pub after_update : Text → Db → List Row
  after_update id db =
      update (claim_where pool db.now id)
        (claim_set kind pool db.now owner (supply db.drawn) duration) db.rows

  pub grant :
      (id token : Text) (db : Db) (c : Claimed) (mid db' : Db)
      → Distinct db.rows
      → count (claim_where pool db.now id) db.rows ≡ 1
      → mid.rows
        ≡ update
            (claim_where pool db.now id)
            (claim_set kind pool db.now owner token duration)
            db.rows
      → ReadBack id token c mid db'
      → Granted db.now db.rows c
  grant id token db c mid db' keyed one rows back =
      let due = count_one (claim_where pool db.now id) db.rows one in
      let all =
        update-Leased kind owner duration db.now pool id token db.rows
          (only_row pool db.now id db.rows keyed due) in
      let (lease, held) =
        filter-head (Leased kind owner duration db.now) id token _ back.rest c.row all
          (subst (λ l. filter (held_by id token) l ≡ c.row ∷ back.rest) rows back.found) in
      let same : c.row.message_id ≡ id = (text_eq_iff c.row.message_id id).0 (ground arith) in
      record {
        lease = lease;
        token = known c.row.claim_token c.claim_token back.token_text (ground arith);
        was_due = subst (λ i. any (claim_where pool db.now i) db.rows ≡ true) (sym same) due;
      }
    where
      known :
          (o : Option Text) (t : Text) → t ≡ Record.token_text o → holds o token ≡ true → o ≡ some t
      known none t e h = absurd (cc)
      known (some u) t e h = ap some (sym e)
