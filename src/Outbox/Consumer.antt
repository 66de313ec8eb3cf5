-- ===== src/Outbox/Consumer.antt =====
-- Delivering a message to a consumer (cool-next/outbox/consumer.go): the inbox mark and the
-- handler's effect in one transaction.
use cool_admin_go_next.Common.{
  ℕ, Bool, true, false, not, List, [], ◌∷◌, Text, Option, none, some, Map, lookup, Result, ok, err,
  any, ltb, leb, ◌==◌, ◌&&◌, ◌||◌, if◌then◌else◌, text_eq,
}
use cool_admin_go_next.Outbox.Store.{Db, Failure, insert_if_absent}
use cool_admin_go_next.Outbox.Backoff.{retry_delay}
use cool_admin_go_next.Outbox.Settings.{ConsumerConfig}
use cool_admin_go_next.Outbox.Envelope.{
  Envelope, EnvelopeError, wrong_topic, wrong_type, unsupported_version, and_then, restore,
}

pub record Subscription : Type 0 where
  pub name : Text
  pub topic : Text
  pub message_type : Text
  pub supported_versions : List ℕ

-- Why a delivery was not acknowledged; `handler_failed` tells whether the error is permanent.
pub data DeliverError : Type 0 where
  zero_attempt too_many_attempts unregistered mismatched undecodable : DeliverError
  bad_envelope : EnvelopeError → DeliverError
  not_begun context_ended not_committed : DeliverError
  inbox_failed : Failure → DeliverError
  handler_failed : Bool → DeliverError

-- DeliveryDecision. `retry` without a delay is the one after the random source's failure.
pub data Decision : Type 0 where
  ack : Decision
  retry : Option ℕ → DeliverError → Decision
  dead_letter : DeliverError → Decision

abbrev pub is_permanent : DeliverError → Bool
is_permanent (handler_failed permanent) = permanent
is_permanent _ = false

abbrev pub same_versions : List ℕ → List ℕ → Bool
same_versions [] [] = true
same_versions (v ∷ vs) (w ∷ ws) = v == w && same_versions vs ws
same_versions _ _ = false

-- `definition`: the subscription that was compiled under the name, compared with this one.
abbrev pub matches : Subscription → Option Subscription → Result DeliverError (Unit {0})
matches subscription none = err unregistered
matches subscription (some compiled) =
    if not (text_eq compiled.topic subscription.topic)
      || not (text_eq compiled.message_type subscription.message_type)
      || not (same_versions compiled.supported_versions subscription.supported_versions)
    then err mismatched
    else ok tt

-- The part of `checkEnvelope` that follows `Restore`.
abbrev pub fits : Subscription → Envelope → Result EnvelopeError Envelope
fits subscription e =
    if not (text_eq e.topic subscription.topic)
    then err wrong_topic
    else if not (text_eq e.message_type subscription.message_type)
    then err wrong_type
    else if not (any (λ v. v == e.version) subscription.supported_versions)
    then err unsupported_version
    else ok e

-- What the surroundings of one delivery do: whether the transaction begins, belongs to the store's
-- group and commits, and whether the context has ended when the handler returns.
pub record Session : Type 0 where
  pub begins : Bool
  pub same_group : Bool
  pub ended : Bool
  pub commits : Bool
  pub random : ℕ → Option ℕ

-- The tables and what the handlers of the application work on.
pub record World (S : Type 0) : Type 0 where
  pub db : Db
  pub business : S

abbrev pub Delivery : Type 0 → Type 0
Delivery S = Result DeliverError (Unit {0}) × World S

-- `S` is what the handlers work on; a handler gives its error, if any, and what it has written.
module _ {S : Type 0} (valid : Text → Bool) (config : ConsumerConfig)
    (definitions : Map Subscription)
    (decode : Subscription → Envelope → Option (S → Option Bool × S)) where
  -- An error rolls the tables and the handler's writes back; so does a commit that fails.
  abbrev pub rolled_back : DeliverError → World S → Db → Delivery S
  rolled_back e old db =
      (err e, record old { db = record db { rows = old.db.rows; inbox = old.db.inbox } })

  abbrev pub commit : Session → World S → Db → S → Delivery S
  commit session old db business =
      if session.commits
      then (ok tt, record { db = db; business = business })
      else rolled_back not_committed old db

  abbrev pub invoked : Session → World S → Db → Option Bool × S → Delivery S
  invoked session old db (some permanent, business) = rolled_back (handler_failed permanent) old db
  invoked session old db (none, business) =
      if session.ended then rolled_back context_ended old db else commit session old db business

  abbrev pub inserted :
      Session → (S → Option Bool × S) → World S → Result Failure Bool × Db → Delivery S
  inserted session invoke old (err e, db) = rolled_back (inbox_failed e) old db
  inserted session invoke old (ok false, db) = commit session old db old.business
  inserted session invoke old (ok true, db) = invoked session old db (invoke old.business)

  unfoldable pub deliver_within :
      Session → Subscription → Text → (S → Option Bool × S) → World S → Delivery S
  deliver_within session subscription message_id invoke w =
      if not session.begins
      then (err not_begun, w)
      else inserted session invoke w
          (insert_if_absent session.same_group subscription.name message_id w.db)

  abbrev pub conclude_delivery : Session → ℕ → Delivery S → Decision × World S
  conclude_delivery session attempt (ok _, w) = (ack, w)
  conclude_delivery session attempt (err e, w) =
      if is_permanent e || leb config.consumer_max_attempts attempt then (dead_letter e, w) else (
        retry
            (retry_delay session.random config.consumer_retry_base config.consumer_retry_max
              attempt)
            e,
        w,
      )

  abbrev pub decoded :
      Session
      → Subscription
      → ℕ
      → Envelope
      → Option (S → Option Bool × S)
      → World S
      → Decision × World S
  decoded session subscription attempt e none w = (dead_letter undecodable, w)
  decoded session subscription attempt e (some invoke) w =
      conclude_delivery session attempt (deliver_within session subscription e.message_id invoke w)

  abbrev pub validated :
      Session → Subscription → ℕ → Result EnvelopeError Envelope → World S → Decision × World S
  validated session subscription attempt (err e) w = (dead_letter (bad_envelope e), w)
  validated session subscription attempt (ok e) w =
      decoded session subscription attempt e (decode subscription e) w

  -- `checkEnvelope`
  unfoldable pub check_envelope : Subscription → Envelope → Result EnvelopeError Envelope
  unfolding restore
  check_envelope subscription message = and_then (restore valid message) (fits subscription)

  abbrev pub defined :
      Session
      → Subscription
      → Envelope
      → ℕ
      → Result DeliverError (Unit {0})
      → World S
      → Decision × World S
  defined session subscription message attempt (err e) w = (dead_letter e, w)
  defined session subscription message attempt (ok _) w =
      validated session subscription attempt (check_envelope subscription message) w

  unfoldable pub deliver : Session → Subscription → Envelope → ℕ → World S → Decision × World S
  unfolding deliver_within check_envelope
  deliver session subscription message attempt w =
      if attempt == 0
      then (dead_letter zero_attempt, w)
      else if ltb config.consumer_max_attempts attempt
      then (dead_letter too_many_attempts, w)
      else defined session subscription message attempt
          (matches subscription (lookup subscription.name definitions)) w
