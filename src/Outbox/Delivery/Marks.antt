-- ===== src/Outbox/Delivery/Marks.antt =====
-- The inbox marks: written once, and kept by every operation of the store.
use cool_admin_go_next.Common.{
  ℕ, ◌≡◌, refl, ◌∙◌, ap, Bool, true, false, not, ◌∷◌, Text, ok, ◌||◌, if◌then◌else◌, text_eq_refl,
  arith,
}
use cool_admin_go_next.Outbox.Record.{valid_message_id, blank, invalid_argument}
use cool_admin_go_next.Outbox.Store.{
  Db, raise, insert_mark, insert_if_absent, marked, is_mark, next_fault, statement,
}
use cool_admin_go_next.Outbox.Change.Rules.{
  Change, waits, enters, claims, renews, sends, retries, buries, purges, replays, marks, Reach,
  here, next,
}
use cool_admin_go_next.Outbox.Inversion.{pair-eq, answer-eq-ok}

Change-marked :
    (supply : ℕ → Text) (consumer id : Text) {a b : Db}
    → Change supply a b
    → marked consumer id a ≡ true
    → marked consumer id b ≡ true
Change-marked supply consumer id (waits _ e _ _) h = rw e h
Change-marked supply consumer id (enters m _) h = h
Change-marked supply consumer id (claims kind pool owner duration i) h = h
Change-marked supply consumer id (renews kind i token duration) h = h
Change-marked supply consumer id (sends i token) h = h
Change-marked supply consumer id (retries kind i token duration summary) h = h
Change-marked supply consumer id (buries i token summary) h = h
Change-marked supply consumer id (purges retention i) h = h
Change-marked supply consumer id (replays i) h = h
Change-marked supply consumer id (marks c i _) h = ground arith

pub Reach-marked :
    (supply : ℕ → Text) (consumer id : Text) {a b : Db}
    → Reach supply a b
    → marked consumer id a ≡ true
    → marked consumer id b ≡ true
Reach-marked supply consumer id here h = h
Reach-marked supply consumer id (next r s) h =
    Change-marked supply consumer id s (Reach-marked supply consumer id r h)

is_mark_refl : (consumer id : Text) → is_mark consumer id (consumer, id) ≡ true
is_mark_refl consumer id = rw (text_eq_refl consumer, text_eq_refl id)

-- A mark that is written is new; in either case it is there afterwards.
insert_mark-marked :
    (consumer id : Text) (db : Db) {new : Bool} {db' : Db}
    → insert_mark consumer id db ≡ (ok new, db')
    → (new ≡ not (marked consumer id db)) × (marked consumer id db' ≡ true)
insert_mark-marked consumer id db {new} {db'} h = go (marked consumer id db) refl h
  where
    go :
        (b : Bool)
        → marked consumer id db ≡ b
        → (if b
            then statement false (λ d. d) db
            else statement true (λ d. record d { inbox = (consumer, id) ∷ d.inbox }) db)
          ≡ (ok new, db')
        → (new ≡ not b) × (marked consumer id db' ≡ true)
    go true e t =
        let (value, same) = answer-eq-ok (next_fault db.faults) false _ _ t in
        (value, ap (λ d. marked consumer id d) same ∙ e)
    go false e t =
        let (value, same) = answer-eq-ok (next_fault db.faults) true _ _ t in
        (value, ap (λ d. marked consumer id d) same ∙ rw (is_mark_refl consumer id))

pub insert_if_absent-marked :
    (same_group : Bool) (consumer id : Text) (db : Db) {new : Bool} {db' : Db}
    → insert_if_absent same_group consumer id db ≡ (ok new, db')
    → (new ≡ not (marked consumer id db)) × (marked consumer id db' ≡ true)
unfolding insert_if_absent
insert_if_absent-marked same_group consumer id db {new} {db'} h =
    go (blank consumer || not (valid_message_id id)) (not same_group) h
  where
    go :
        (a b : Bool)
        → (if a
              then raise invalid_argument
              else if b
              then raise invalid_argument
              else insert_mark consumer id)
            db
          ≡ (ok new, db')
        → (new ≡ not (marked consumer id db)) × (marked consumer id db' ≡ true)
    go true b t = absurd (cc (pair-eq t).0)
    go false true t = absurd (cc (pair-eq t).0)
    go false false t = insert_mark-marked consumer id db t
