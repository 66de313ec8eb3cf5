-- ===== src/Outbox/Store/Inbox.antt =====
-- `InsertIfAbsent`: the mark that a consumer has processed a message, in the caller's transaction.
use cool_admin_go_next.Common.{
  Bool, true, false, ◌&&◌, ◌||◌, not, ◌∷◌, Text, if◌then◌else◌, text_eq, any,
}
use cool_admin_go_next.Outbox.Record.{invalid_argument, valid_message_id, blank}
use cool_admin_go_next.Outbox.Store.Monad.{Db, Tx, raise, statement}

abbrev pub is_mark : Text → Text → Text × Text → Bool
is_mark consumer id (c, m) = text_eq c consumer && text_eq m id

abbrev pub marked : Text → Text → Db → Bool
marked consumer id db = any (is_mark consumer id) db.inbox

-- The three dialects tell a duplicate key apart by an error number, an empty RETURNING and a count
-- of 0; the statement adds no row then.
abbrev pub insert_mark : Text → Text → Tx Bool
insert_mark consumer id db =
    if marked consumer id db
    then statement false (λ d. d) db
    else statement true (λ d. record d { inbox = (consumer, id) ∷ d.inbox }) db

unfoldable pub insert_if_absent : Bool → Text → Text → Tx Bool
unfolding valid_message_id
insert_if_absent same_group consumer id =
    if blank consumer || not (valid_message_id id)
    then raise invalid_argument
    else if not same_group
    then raise invalid_argument
    else insert_mark consumer id
