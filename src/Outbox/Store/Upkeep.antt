-- ===== src/Outbox/Store/Upkeep.antt =====
-- Entering messages, purging sent ones, the operator's views, and replaying dead letters.
use cool_admin_go_next.Common.{
  ℕ, ◌+◌, ◌++◌, Bool, true, false, ◌&&◌, ◌||◌, not, List, [], ◌∷◌, Text, leb, ltb, ◌==◌,
  if◌then◌else◌, is_empty_text, trim_space, text_eq, map, filter, any,
}
use cool_admin_go_next.Outbox.Record.{
  Status, Row, Message, Metadata, invalid_argument, not_found, replay_rejected, replay_conflict,
  broken_invariant, duplicate_key, valid_message_id, valid_status, to_metadata,
}
use cool_admin_go_next.Outbox.Statements.{
  has_id, enqueue_row, select, is_stale, cleanup_order, cleanup_where, list_order, is_dead,
  is_dead_id, replay_set,
}
use cool_admin_go_next.Outbox.Store.Monad.{
  Tx, ◌>>=◌, ◌>>◌, pure, raise, query, exec_update, exec_delete, statement, transaction,
}
use cool_admin_go_next.Outbox.Store.Claim.{lift}

-- The INSERT; the primary key is checked by the database.
abbrev pub insert_message : Message → Tx (Unit {0})
insert_message m db =
    if any (has_id m.message_id) db.rows
    then raise duplicate_key db
    else statement tt (λ d. record d { rows = d.rows ++ enqueue_row d.now m ∷ [] }) db

-- `Enqueue` in the caller's transaction, which is of the store's group or not.
unfoldable pub enqueue : Bool → Message → Tx (Unit {0})
enqueue same_group m = if same_group then insert_message m else raise invalid_argument

-- The loop of `CleanupSent`: the number of rows that were deleted.
unfoldable pub clean_each : ℕ → List Text → Tx ℕ
clean_each retention [] = pure 0
clean_each retention (id ∷ ids) = do
  affected ← λ db. exec_delete (cleanup_where db.now retention id) db
  if leb affected 1 then pure tt else raise (broken_invariant affected)
  rest ← clean_each retention ids
  pure (affected + rest)

unfoldable pub cleanup_sent : ℕ → ℕ → Tx ℕ
unfolding clean_each
cleanup_sent retention limit =
    if leb retention 0 || leb limit 0
    then raise invalid_argument
    else transaction (do
      candidates ← query λ db. select (is_stale db.now retention) cleanup_order limit db.rows
      clean_each retention (map (λ r. r.message_id) candidates))

unfoldable pub to_metadatas : List Row → Tx (List Metadata)
unfolding to_metadata
to_metadatas [] = pure []
to_metadatas (r ∷ rows) = do
  first ← lift (to_metadata r)
  rest ← to_metadatas rows
  pure (first ∷ rest)

abbrev status_eq : Status → Status → Bool
status_eq Status.pending Status.pending = true
status_eq Status.retry Status.retry = true
status_eq Status.leased Status.leased = true
status_eq Status.sent Status.sent = true
status_eq Status.dead Status.dead = true
status_eq (Status.unknown s) (Status.unknown t) = text_eq s t
status_eq _ _ = false

abbrev pub max_list_limit : ℕ
max_list_limit = 200

abbrev pub list_where : Status → Text → Row → Bool
list_where status topic r =
    status_eq r.status status && (is_empty_text topic || text_eq r.topic topic)

-- `topic` is the filter's, trimmed: none of its spaces reach the query.
unfoldable pub list : Status → Text → ℕ → Tx (List Metadata)
unfolding to_metadatas trim_space
list status filter_topic limit =
    let topic = trim_space filter_topic in
    if not (valid_status status)
      || leb limit 0
      || ltb max_list_limit limit
      || not (is_empty_text filter_topic) && is_empty_text topic
    then raise invalid_argument
    else do
      found ← query λ db. select (list_where status topic) list_order limit db.rows
      to_metadatas found

abbrev pub head_or_not_found : List Row → Tx Row
head_or_not_found [] = raise not_found
head_or_not_found (r ∷ _) = if is_empty_text r.message_id then raise not_found else pure r

unfoldable pub show : Text → Tx Metadata
unfolding valid_message_id to_metadata
show id = if not (valid_message_id id) then raise invalid_argument else do
  found ← query λ db. filter (has_id id) db.rows
  r ← head_or_not_found found
  lift (to_metadata r)

-- The result of the UPDATE that replays.
abbrev pub replayed : ℕ → Tx (Unit {0})
replayed affected =
    if affected == 0
    then raise replay_conflict
    else if affected == 1
    then pure tt
    else raise (broken_invariant affected)

unfoldable pub replay_within : Text → Tx (Unit {0})
replay_within id = do
  found ← query λ db. filter (has_id id) db.rows
  current ← head_or_not_found found
  if is_dead current.status then pure tt else raise replay_rejected
  affected ← λ db. exec_update (is_dead_id id) (replay_set db.now) db
  replayed affected

unfoldable pub replay_dead : Text → Tx (Unit {0})
unfolding replay_within valid_message_id
replay_dead id =
    if not (valid_message_id id) then raise invalid_argument else transaction (replay_within id)
