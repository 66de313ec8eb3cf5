-- ===== src/Outbox/Holding.antt =====
-- A lease that is held is good: its holder's operations succeed.
use cool_admin_go_next.Common.{
  ℕ, ◌<◌, ◌≡◌, refl, subst, true, false, List, [], ◌∷◌, Text, arith, any, count, text_eq_iff, ok,
  ◌+◌, ◌/◌, max, ◌≤◌, some, none, ◌++◌, ap, ◌∙◌, text_eq, text_eq_refl, leb, Bool-cases, inl, inr,
}
use cool_admin_go_next.Outbox.Record.{Row, Message, retry, leased, sent, dead}
use cool_admin_go_next.Outbox.Statements.{
  Kind, duration_argument, has_id, held_by, update, renew_set, sent_set, retry_set, dead_set,
}
use cool_admin_go_next.Outbox.Store.{
  Db, Tx, exec_claim_update, renew, mark_sent, mark_retry, mark_dead,
}
use cool_admin_go_next.Outbox.Rows.{Distinct, any-append, text_eq_sym}
use cool_admin_go_next.Outbox.Fencing.{calm}

count_absent :
    (id token : Text) (rows : List Row)
    → any (has_id id) rows ≡ false
    → count (held_by id token) rows ≡ 0
count_absent id token [] h = refl
count_absent id token (r ∷ rows) h = ground (arith, count_absent id token rows)

count_held :
    (id token : Text) (rows : List Row)
    → Distinct rows
    → any (held_by id token) rows ≡ true
    → count (held_by id token) rows ≡ 1
count_held id token [] d h = absurd (cc)
count_held id token (r ∷ rows) d h = elim (Bool-cases (held_by id token r)) [
  | inl e ↦
      let same : r.message_id ≡ id = (text_eq_iff r.message_id id).0 (ground arith) in
      let others : any (has_id id) rows ≡ false =
        subst (λ i. any (has_id i) rows ≡ false) same d.0 in
      ground (arith, count_absent id token rows others)
  | inr e ↦
      let later : any (held_by id token) rows ≡ true = ground arith in
      ground (arith, count_held id token rows d.1 later)
]

update_none :
    (id token : Text) (set : Row → Row) (rows : List Row)
    → any (has_id id) rows ≡ false
    → update (held_by id token) set rows ≡ rows
unfolding update
update_none id token set [] h = refl
update_none id token set (r ∷ rows) h =
    let other : held_by id token r ≡ false = ground arith in
    rw (other, update_none id token set rows (ground arith)) refl

-- An update of the holder reaches the held row and no other.
update_held :
    (id token : Text) (set : Row → Row) (front back : List Row) (r : Row)
    → Distinct (front ++ r ∷ back)
    → r.message_id ≡ id
    → held_by id token r ≡ true
    → update (held_by id token) set (front ++ r ∷ back) ≡ front ++ set r ∷ back
unfolding update
update_held id token set [] back r d same held =
    rw (held, update_none id token set back (rw (← same) d.0)) refl
update_held id token set (first ∷ front) back r d same held =
    let apart : text_eq r.message_id first.message_id ≡ false =
      ground (arith, any-append (has_id first.message_id) front (r ∷ back), d.0) in
    let other : has_id id first ≡ false =
      rw (← same) (text_eq_sym first.message_id r.message_id ∙ apart) in
    let unheld : held_by id token first ≡ false = ground (arith, other) in
    rw (unheld, update_held id token set front back r d.1 same held) refl

exec_claim_update_held :
    (id token : Text) (set : Row → Row) (db : Db)
    → count (held_by id token) db.rows ≡ 1
    → exec_claim_update (held_by id token) set (calm db)
      ≡ (ok tt, record (calm db) { rows = update (held_by id token) set db.rows })
unfolding exec_claim_update
exec_claim_update_held id token set db h = rw h refl

abbrev pub message_of : Row → Message
message_of r = record {
  message_id = r.message_id;
  topic = r.topic;
  message_type = r.message_type;
  message_version = r.message_version;
  message_key = r.message_key;
  payload = r.payload;
  headers = r.headers;
}

abbrev pub IsSame : Row → Row → Type 0
IsSame old new =
    (message_of new ≡ message_of old)
    × (new.attempts ≡ old.attempts)
    × (new.create_time ≡ old.create_time)

-- Nobody holds the row.
abbrev pub IsFree : Row → Type 0
IsFree r = (r.lease_owner ≡ none) × (r.claim_token ≡ none) × (r.lease_expires_at ≡ none)

abbrev pub IsSent : ℕ → Row → Type 0
IsSent now r = (r.status ≡ sent) × (r.sent_at ≡ some now) × (r.last_error ≡ none) × IsFree r

-- A retry waits for the delay, in whole microseconds, at least.
abbrev pub IsWaiting : ℕ → ℕ → Text → Row → Type 0
IsWaiting now delay summary r =
    (r.status ≡ retry)
    × (now + delay / 1000 ≤ r.available_at)
    × (r.last_error ≡ some summary)
    × (r.sent_at ≡ none)
    × IsFree r

abbrev pub IsBuried : Text → Row → Type 0
IsBuried summary r =
    (r.status ≡ dead) × (r.last_error ≡ some summary) × (r.sent_at ≡ none) × IsFree r

-- A renewed lease has the same holder, and ends after the duration or after it would have ended,
-- whichever is later.
abbrev pub IsRenewed : Row → ℕ → ℕ → ℕ → Row → Type 0
IsRenewed old now deadline duration r =
    (r.status ≡ leased)
    × (r.claim_token ≡ old.claim_token)
    × (r.lease_owner ≡ old.lease_owner)
    × (later : ℕ) × (r.lease_expires_at ≡ some later)
    × (now + duration / 1000 ≤ later)
    × (deadline + duration / 1000 ≤ later)

-- The operation works; of the database it changes the row `old` alone, and that one to a row of the
-- same message for which `P` holds.
abbrev pub Makes : Tx (Unit {0}) → Db → List Row → Row → List Row → (Row → Type 0) → Type 0
Makes m db front old back P =
    (new : Row) × (m db ≡ (ok tt, record db { rows = front ++ new ∷ back }))
    × IsSame old new
    × P new

whole_micros : (kind : Kind) (duration : ℕ) → duration / 1000 ≤ duration_argument kind duration
unfolding duration_argument
whole_micros kind duration = ground arith

module _ (kind : Kind) (db : Db) (token : Text) (front back : List Row) (r : Row)
    (keyed : Distinct (front ++ r ∷ back)) (there : db.rows ≡ front ++ r ∷ back)
    (lease : r.status ≡ leased) (ours : r.claim_token ≡ some token) where
  is_ours : held_by r.message_id token r ≡ true
  is_ours = rw (text_eq_refl r.message_id, lease, ours) (text_eq_refl token)

  held_once : count (held_by r.message_id token) db.rows ≡ 1
  held_once = rw there (
      count_held r.message_id token (front ++ r ∷ back) keyed
        (ground (arith, any-append (held_by r.message_id token) front (r ∷ back), is_ours)))

  made :
      (set : Row → Row)
      → exec_claim_update (held_by r.message_id token) set (calm db)
        ≡ (ok tt, record (calm db) { rows = front ++ set r ∷ back })
  made set =
      exec_claim_update_held r.message_id token set db held_once
      ∙ ap (λ rows. (ok tt, record (calm db) { rows = rows }))
          (ap (update (held_by r.message_id token) set) there
            ∙ update_held r.message_id token set front back r keyed refl is_ours)

  -- While a message is leased under the token, and its id stands on no other row, each of the holder's
  -- operations works if its statement runs. It changes that row alone, and leaves its message and its
  -- attempts. The mark as sent makes the row sent at that moment; the one to be retried makes it wait
  -- for the delay with the error; the one as dead makes it dead with the error; and after each of them
  -- nobody holds the row. The renewal, for a positive duration, leaves the lease with its holder until
  -- the duration has passed from that moment, and from the old deadline.
  pub holder-Makes :
      (duration deadline : ℕ) (summary : Text)
      → r.lease_expires_at ≡ some deadline
      → 0 < duration
      → let now = calm db in
        let id = r.message_id in
        Makes (mark_sent id token) now front r back (IsSent db.now)
        × Makes
            (mark_retry kind id token duration summary)
            now
            front
            r
            back
            (IsWaiting db.now duration summary)
        × Makes (mark_dead id token summary) now front r back (IsBuried summary)
        × Makes
            (renew kind id token duration)
            now
            front
            r
            back
            (IsRenewed r db.now deadline duration)
  unfolding mark_sent mark_retry mark_dead renew sent_set retry_set dead_set renew_set
  holder-Makes duration deadline summary ends positive =
      let some_time : leb duration 0 ≡ false = ground arith in
      let least : duration / 1000 ≤ duration_argument kind duration = whole_micros kind duration in
      (
        (_, made (sent_set db.now), (refl, refl, refl), (refl, refl, refl, (refl, refl, refl))),
        (
          _,
          made (retry_set kind db.now duration summary),
          (refl, refl, refl),
          (refl, omega (arith, least), refl, refl, (refl, refl, refl)),
        ),
        (
          _,
          made (dead_set db.now summary),
          (refl, refl, refl),
          (refl, refl, refl, (refl, refl, refl)),
        ),
        (
          renew_set kind db.now duration r,
          rw some_time (made (renew_set kind db.now duration)),
          (refl, refl, refl),
          (
            lease,
            refl,
            refl,
            max deadline db.now + duration_argument kind duration,
            rw ends refl,
            omega (arith, least),
            omega (arith, least),
          ),
        ),
      )
