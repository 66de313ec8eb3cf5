-- ===== src/Outbox/Statements.antt =====
-- The SQL statements of cool-next/outbox/store/sql.go as functions on the rows of the table: the
-- WHERE clause as a test, the SET list as an update, ORDER BY as a comparison. A comparison with
-- NULL fails. Deadlines are exact: the rounding of SQLite's STRFTIME is not modelled.
use cool_admin_go_next.Common.{
  ℕ, ◌+◌, ◌/◌, max, Bool, true, false, ◌&&◌, ◌||◌, List, [], ◌∷◌, Option, none, some, Text, leb,
  ltb, ◌==◌, if◌then◌else◌, text_eq, filter, take,
}
use cool_admin_go_next.Outbox.Record.{Status, pending, retry, leased, sent, dead, Row, Message}

pub data Kind : Type 0 where
  mysql postgres sqlite : Kind

abbrev pub is_sqlite : Kind → Bool
is_sqlite sqlite = true
is_sqlite _ = false

-- Durations are nanoseconds, the column's unit is a microsecond.
unfoldable pub duration_argument : Kind → ℕ → ℕ
duration_argument kind duration =
    let micros = duration / 1000 in
    let least = if ltb 0 duration && micros == 0 then 1 else micros in
    if is_sqlite kind && ltb 0 duration && ltb least 1000 then 1000 else least

-- `-retention`: the clamps above are for positive durations, so the threshold is `now` less this.
abbrev pub retention_argument : ℕ → ℕ
retention_argument retention = retention / 1000

abbrev pub is_ready : Status → Bool
is_ready pending = true
is_ready retry = true
is_ready _ = false

abbrev pub is_leased : Status → Bool
is_leased leased = true
is_leased _ = false

abbrev pub is_sent : Status → Bool
is_sent sent = true
is_sent _ = false

abbrev pub is_dead : Status → Bool
is_dead dead = true
is_dead _ = false

abbrev pub at_most : Option ℕ → ℕ → Bool
at_most none now = false
at_most (some t) now = leb t now

abbrev pub holds : Option Text → Text → Bool
holds none t = false
holds (some s) t = text_eq s t

abbrev pub has_id : Text → Row → Bool
has_id id r = text_eq r.message_id id

-- The two halves of the WHERE clause of a claim, and the clause by the kind of claim.
pub data Pool : Type 0 where
  any_due available expired : Pool

abbrev pub due_available : ℕ → Row → Bool
due_available now r = is_ready r.status && leb r.available_at now

abbrev pub due_expired : ℕ → Row → Bool
due_expired now r = is_leased r.status && at_most r.lease_expires_at now

abbrev pub due : Pool → ℕ → Row → Bool
due any_due now r = due_available now r || due_expired now r
due available now r = due_available now r
due expired now r = due_expired now r

-- ORDER BY
abbrev deadline : Option ℕ → ℕ
deadline none = 0
deadline (some t) = t

abbrev wait_key : Status → Row → ℕ
wait_key leased r = deadline r.lease_expires_at
wait_key _ r = r.available_at

abbrev text_before : Text → Text → Bool
text_before [] t = true
text_before (x ∷ s) [] = false
text_before (x ∷ s) (y ∷ t) = ltb x y || x == y && text_before s t

abbrev by_create : Row → Row → Bool
by_create r s =
    ltb r.create_time s.create_time
    || r.create_time == s.create_time && text_before r.message_id s.message_id

abbrev by_key : (Row → ℕ) → (Row → Row → Bool) → Row → Row → Bool
by_key key rest r s = ltb (key r) (key s) || key r == key s && rest r s

abbrev by_id : Row → Row → Bool
by_id r s = text_before r.message_id s.message_id

abbrev pub claim_order : Pool → Row → Row → Bool
claim_order any_due = by_key (λ r. wait_key r.status r) by_create
claim_order available = by_key (λ r. r.available_at) by_create
claim_order expired = by_key (λ r. deadline r.lease_expires_at) by_id

module _ (before : Row → Row → Bool) where
  pub insert_row : Row → List Row → List Row
  insert_row r [] = r ∷ []
  insert_row r (s ∷ rows) = elim (before r s) [
    | true ↦ r ∷ s ∷ rows
    | false ↦ s ∷ insert_row r rows
  ]

  pub order_by : List Row → List Row
  unfolding insert_row
  order_by [] = []
  order_by (r ∷ rows) = insert_row r (order_by rows)

-- SELECT … WHERE … ORDER BY … LIMIT
unfoldable pub select : (Row → Bool) → (Row → Row → Bool) → ℕ → List Row → List Row
unfolding order_by
select test before limit rows = take limit (order_by before (filter test rows))

-- UPDATE … SET … WHERE …, and the number of affected rows.
unfoldable pub update : (Row → Bool) → (Row → Row) → List Row → List Row
update test set [] = []
update test set (r ∷ rows) = (if test r then set r else r) ∷ update test set rows

-- DELETE … WHERE …
unfoldable pub delete : (Row → Bool) → List Row → List Row
delete test [] = []
delete test (r ∷ rows) = elim (test r) [ true ↦ delete test rows | false ↦ r ∷ delete test rows ]

-- The rows that `FOR UPDATE SKIP LOCKED` leaves out; SQLite has no such clause.
abbrev pub is_skipped : Kind → (Text → Bool) → Row → Bool
is_skipped sqlite locked r = false
is_skipped _ locked r = locked r.message_id

abbrev pub claim_candidates : Kind → (Text → Bool) → Pool → ℕ → Row → Bool
claim_candidates kind locked pool now r = elim (is_skipped kind locked r) [
  | true ↦ false
  | false ↦ due pool now r
]

abbrev pub claim_where : Pool → ℕ → Text → Row → Bool
claim_where pool now id r = has_id id r && due pool now r

abbrev next_attempts : Pool → Row → ℕ
next_attempts any_due r = if is_ready r.status then r.attempts + 1 else r.attempts
next_attempts available r = r.attempts + 1
next_attempts expired r = r.attempts

unfoldable pub claim_set : Kind → Pool → ℕ → Text → Text → ℕ → Row → Row
claim_set kind pool now owner token duration r = record r {
  attempts = next_attempts pool r;
  status = leased;
  lease_owner = some owner;
  claim_token = some token;
  lease_expires_at = some (now + duration_argument kind duration);
  update_time = now;
}

-- The condition of every statement that a lease's holder runs.
abbrev pub held_by : Text → Text → Row → Bool
held_by id token r = has_id id r && (is_leased r.status && holds r.claim_token token)

-- GREATEST of a NULL is NULL on MySQL; the other two take `now`.
abbrev renew_deadline : Kind → ℕ → ℕ → Option ℕ → Option ℕ
renew_deadline kind now d (some t) = some (max t now + d)
renew_deadline mysql now d none = none
renew_deadline _ now d none = some (now + d)

unfoldable pub renew_set : Kind → ℕ → ℕ → Row → Row
renew_set kind now duration r = record r {
  lease_expires_at = renew_deadline kind now (duration_argument kind duration) r.lease_expires_at;
  update_time = now;
}

unfoldable pub sent_set : ℕ → Row → Row
sent_set now r = record r {
  status = sent;
  sent_at = some now;
  lease_owner = none;
  claim_token = none;
  lease_expires_at = none;
  last_error = none;
  update_time = now;
}

unfoldable pub retry_set : Kind → ℕ → ℕ → Text → Row → Row
retry_set kind now duration summary r = record r {
  status = retry;
  available_at = now + duration_argument kind duration;
  last_error = some summary;
  lease_owner = none;
  claim_token = none;
  lease_expires_at = none;
  sent_at = none;
  update_time = now;
}

unfoldable pub dead_set : ℕ → Text → Row → Row
dead_set now summary r = record r {
  status = dead;
  last_error = some summary;
  lease_owner = none;
  claim_token = none;
  lease_expires_at = none;
  sent_at = none;
  update_time = now;
}

abbrev pub is_dead_id : Text → Row → Bool
is_dead_id id r = has_id id r && is_dead r.status

unfoldable pub replay_set : ℕ → Row → Row
replay_set now r = record r {
  status = retry;
  attempts = 0;
  available_at = now;
  lease_owner = none;
  claim_token = none;
  lease_expires_at = none;
  sent_at = none;
  last_error = none;
  update_time = now;
}

-- `sentAt <= now - retention`, with the retention moved over.
abbrev sent_before : ℕ → ℕ → Option ℕ → Bool
sent_before now retention none = false
sent_before now retention (some t) = leb (t + retention_argument retention) now

abbrev pub is_stale : ℕ → ℕ → Row → Bool
is_stale now retention r = is_sent r.status && sent_before now retention r.sent_at

abbrev by_sent : Row → Row → Bool
by_sent = by_key (λ r. deadline r.sent_at) by_id

abbrev pub cleanup_order : Row → Row → Bool
cleanup_order = by_sent

abbrev pub cleanup_where : ℕ → ℕ → Text → Row → Bool
cleanup_where now retention id r = has_id id r && is_stale now retention r

abbrev pub list_order : Row → Row → Bool
list_order = by_create

-- The VALUES of `enqueue`; the columns that it leaves out are NULL.
unfoldable pub enqueue_row : ℕ → Message → Row
enqueue_row now m = record {
  message_id = m.message_id;
  topic = m.topic;
  message_type = m.message_type;
  message_version = m.message_version;
  message_key = m.message_key;
  payload = m.payload;
  headers = m.headers;
  status = pending;
  attempts = 0;
  available_at = now;
  lease_owner = none;
  claim_token = none;
  lease_expires_at = none;
  last_error = none;
  create_time = now;
  update_time = now;
  sent_at = none;
}
