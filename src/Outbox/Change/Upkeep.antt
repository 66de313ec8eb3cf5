-- ===== src/Outbox/Change/Upkeep.antt =====
-- Entering messages, purging, the operator's operations and the inbox: on every path, and with any
-- failures, sequences of the changes of `Rules`.
use cool_admin_go_next.Common.{
  ℕ, ◌+◌, ◌≡◌, refl, Bool, true, false, ◌&&◌, ◌||◌, not, List, [], ◌∷◌, ◌++◌, Text, arith, any, leb,
  ltb, ◌==◌, if◌then◌else◌, trim_space, is_empty_text, count,
}
use cool_admin_go_next.Outbox.Record.{
  Row, Message, Status, valid_message_id, invalid_argument, broken_invariant, duplicate_key,
  replay_rejected, replay_conflict, not_found, blank, valid_status,
}
use cool_admin_go_next.Outbox.Statements.{
  has_id, enqueue_row, is_dead, is_dead_id, replay_set, update, delete, cleanup_where,
}
use cool_admin_go_next.Outbox.Store.{
  Db, pure, raise, transaction, exec_update, exec_delete, enqueue, insert_message, statement,
  clean_each, cleanup_sent, to_metadatas, list, show, replay_within, replay_dead, insert_if_absent,
  insert_mark, marked, head_or_not_found, replayed, max_list_limit,
}
use cool_admin_go_next.Outbox.Change.Rules.{
  enters, purges, replays, marks, Reach, here, waits, Reaches, Reaches-pure, Reaches-raise,
  Reaches-bind, Reaches-transaction, Reaches-query, Reach-statement, Reaches-if, Reaches-lift,
}

module _ (supply : ℕ → Text) where
  Reaches-insert_message : (m : Message) → Reaches supply (insert_message m)
  Reaches-insert_message m = record { at = λ db. go db (any (has_id m.message_id) db.rows) refl }
    where
      go :
          (db : Db) (b : Bool)
          → any (has_id m.message_id) db.rows ≡ b
          → Reach supply db
              (if b
                then raise duplicate_key db
                else statement tt
                    (λ d. record d { rows = d.rows ++ enqueue_row d.now m ∷ [] })
                    db).1
      go db true e = here
      go db false e =
          Reach-statement supply tt (λ d. record d { rows = d.rows ++ enqueue_row d.now m ∷ [] }) db
            (enters m e)

  pub Reaches-enqueue : (same_group : Bool) (m : Message) → Reaches supply (enqueue same_group m)
  unfolding enqueue
  Reaches-enqueue same_group m =
      Reaches-if supply same_group (insert_message m) _ (Reaches-insert_message m)
        (Reaches-raise supply _)

  Reaches-exec_delete :
      (retention : ℕ) (id : Text)
      → Reaches supply (λ db. exec_delete (cleanup_where db.now retention id) db)
  Reaches-exec_delete retention id = record {
    at = λ db.
        Reach-statement supply (count (cleanup_where db.now retention id) db.rows)
          (λ d. record d { rows = delete (cleanup_where db.now retention id) d.rows }) db
          (purges retention id);
  }

  Reaches-clean_each : (retention : ℕ) (ids : List Text) → Reaches supply (clean_each retention ids)
  unfolding clean_each
  Reaches-clean_each retention [] = Reaches-pure supply _
  Reaches-clean_each retention (id ∷ ids) =
      Reaches-bind supply (λ db. exec_delete (cleanup_where db.now retention id) db) _
        (Reaches-exec_delete retention id)
        λ n.
          Reaches-bind supply _ _
            (Reaches-if supply (leb n 1) (pure tt) (raise (broken_invariant n))
              (Reaches-pure supply _) (Reaches-raise supply _))
            λ _.
              Reaches-bind supply _ _ (Reaches-clean_each retention ids)
                λ rest. Reaches-pure supply (n + rest)

  pub Reaches-cleanup_sent : (retention limit : ℕ) → Reaches supply (cleanup_sent retention limit)
  unfolding cleanup_sent
  Reaches-cleanup_sent retention limit =
      Reaches-if supply (leb retention 0 || leb limit 0) (raise invalid_argument) (transaction _)
        (Reaches-raise supply _)
        (Reaches-transaction supply _
          (Reaches-bind supply _ _ (Reaches-query supply _) λ rows. Reaches-clean_each retention _))

  Reaches-to_metadatas : (rows : List Row) → Reaches supply (to_metadatas rows)
  unfolding to_metadatas
  Reaches-to_metadatas [] = Reaches-pure supply _
  Reaches-to_metadatas (r ∷ rows) =
      Reaches-bind supply _ _ (Reaches-lift supply _)
        λ first. Reaches-bind supply _ _ (Reaches-to_metadatas rows) λ rest. Reaches-pure supply _

  pub Reaches-list :
      (status : Status) (topic : Text) (limit : ℕ) → Reaches supply (list status topic limit)
  unfolding list
  Reaches-list status topic limit =
      Reaches-if supply
        (not (valid_status status)
          || leb limit 0
          || ltb max_list_limit limit
          || not (is_empty_text topic) && is_empty_text (trim_space topic))
        (raise invalid_argument) _ (Reaches-raise supply _)
        (Reaches-bind supply _ _ (Reaches-query supply _) λ rows. Reaches-to_metadatas rows)

  Reaches-head_or_not_found : (rows : List Row) → Reaches supply (head_or_not_found rows)
  Reaches-head_or_not_found [] = Reaches-raise supply _
  Reaches-head_or_not_found (r ∷ _) =
      Reaches-if supply (is_empty_text r.message_id) (raise not_found) (pure r)
        (Reaches-raise supply _) (Reaches-pure supply _)

  pub Reaches-show : (id : Text) → Reaches supply (show id)
  unfolding show
  Reaches-show id =
      Reaches-if supply (not (valid_message_id id)) (raise invalid_argument) _
        (Reaches-raise supply _)
        (Reaches-bind supply _ _ (Reaches-query supply _) λ rows.
          Reaches-bind supply _ _ (Reaches-head_or_not_found rows) λ r. Reaches-lift supply _)

  Reaches-replayed : (n : ℕ) → Reaches supply (replayed n)
  Reaches-replayed n =
      Reaches-if supply (n == 0) (raise replay_conflict) _ (Reaches-raise supply _) (
        Reaches-if supply (n == 1) (pure tt) (raise (broken_invariant n)) (Reaches-pure supply _)
          (Reaches-raise supply _))

  Reaches-replay_update :
      (id : Text) → Reaches supply (λ db. exec_update (is_dead_id id) (replay_set db.now) db)
  Reaches-replay_update id = record {
    at = λ db.
        Reach-statement supply (count (is_dead_id id) db.rows)
          (λ d. record d { rows = update (is_dead_id id) (replay_set db.now) d.rows }) db
          (replays id);
  }

  Reaches-replay_within : (id : Text) → Reaches supply (replay_within id)
  unfolding replay_within
  Reaches-replay_within id = Reaches-bind supply _ _ (Reaches-query supply _) λ rows.
      Reaches-bind supply _ _ (Reaches-head_or_not_found rows) λ r.
        Reaches-bind supply _ _
          (Reaches-if supply (is_dead r.status) (pure tt) (raise replay_rejected)
            (Reaches-pure supply _) (Reaches-raise supply _))
          λ _.
            Reaches-bind supply (λ db. exec_update (is_dead_id id) (replay_set db.now) db) _
              (Reaches-replay_update id) Reaches-replayed

  pub Reaches-replay_dead : (id : Text) → Reaches supply (replay_dead id)
  unfolding replay_dead
  Reaches-replay_dead id =
      Reaches-if supply (not (valid_message_id id)) (raise invalid_argument) (transaction _)
        (Reaches-raise supply _) (Reaches-transaction supply _ (Reaches-replay_within id))

  Reaches-insert_mark : (consumer id : Text) → Reaches supply (insert_mark consumer id)
  Reaches-insert_mark consumer id = record { at = λ db. go db (marked consumer id db) refl }
    where
      go :
          (db : Db) (b : Bool)
          → marked consumer id db ≡ b
          → Reach supply db
              (if b
                then statement false (λ d. d) db
                else statement true (λ d. record d { inbox = (consumer, id) ∷ d.inbox }) db).1
      go db true e =
          Reach-statement supply false (λ d. d) db (waits refl refl (omega arith) (omega arith))
      go db false e =
          Reach-statement supply true (λ d. record d { inbox = (consumer, id) ∷ d.inbox }) db
            (marks consumer id e)

  pub Reaches-insert_if_absent :
      (same_group : Bool) (consumer id : Text)
      → Reaches supply (insert_if_absent same_group consumer id)
  unfolding insert_if_absent
  Reaches-insert_if_absent same_group consumer id =
      Reaches-if supply (blank consumer || not (valid_message_id id)) (raise invalid_argument) _
        (Reaches-raise supply _)
        (Reaches-if supply (not same_group) (raise invalid_argument) (insert_mark consumer id)
          (Reaches-raise supply _) (Reaches-insert_mark consumer id))
