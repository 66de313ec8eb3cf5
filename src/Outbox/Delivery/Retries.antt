-- ===== src/Outbox/Delivery/Retries.antt =====
-- When a delivery is to be tried again.
use cool_admin_go_next.Common.{
  ℕ, ◌<◌, ◌≡◌, refl, Bool, true, false, Text, Option, none, some, Map, lookup, Result, ok, err, leb,
  ltb, ◌==◌, ◌||◌, if◌then◌else◌, leb_false→lt, arith,
}
use cool_admin_go_next.Outbox.Backoff.{retry_delay}
use cool_admin_go_next.Outbox.Settings.{ConsumerConfig}
use cool_admin_go_next.Outbox.Envelope.{Envelope, EnvelopeError}
use cool_admin_go_next.Outbox.Consumer.{
  zero_attempt, too_many_attempts, Subscription, DeliverError, Decision, retry, dead_letter,
  Session, World, Delivery, matches, deliver_within, conclude_delivery, decoded, validated,
  check_envelope, defined, deliver, is_permanent,
}

-- What a decision to retry needs.
abbrev pub Retried : ConsumerConfig → ℕ → Decision → Type 0
Retried config attempt (retry delay e) =
    (0 < attempt) × (attempt < config.consumer_max_attempts) × (is_permanent e ≡ false)
Retried config attempt _ = Unit

module _ {S : Type 0} (valid : Text → Bool) (config : ConsumerConfig)
    (definitions : Map Subscription)
    (decode : Subscription → Envelope → Option (S → Option Bool × S)) (session : Session)
    (subscription : Subscription) (attempt : ℕ) (positive : 0 < attempt) where
  conclude-Retried :
      (r : Delivery S)
      → Retried config attempt
          (conclude_delivery valid config definitions decode session attempt r).0
  conclude-Retried (ok _, w) = tt
  conclude-Retried (err e, w) =
      go (is_permanent e) (leb config.consumer_max_attempts attempt) refl refl
    where
      go :
          (a b : Bool)
          → is_permanent e ≡ a
          → leb config.consumer_max_attempts attempt ≡ b
          → Retried config attempt
              (if◌then◌else◌ {A = Decision × World S}
                (a || b)
                (dead_letter e, w)
                (
                  retry
                      (retry_delay session.random config.consumer_retry_base
                        config.consumer_retry_max attempt)
                      e,
                  w,
                )).0
      go true b p q = tt
      go false true p q = tt
      go false false p q = (positive, leb_false→lt _ _ q, p)

  decoded-Retried :
      (e : Envelope) (invoke : Option (S → Option Bool × S)) (w : World S)
      → Retried config attempt
          (decoded valid config definitions decode session subscription attempt e invoke w).0
  decoded-Retried e none w = tt
  decoded-Retried e (some invoke) w =
      conclude-Retried
        (deliver_within valid config definitions decode session subscription e.message_id invoke w)

  validated-Retried :
      (r : Result EnvelopeError Envelope) (w : World S)
      → Retried config attempt
          (validated valid config definitions decode session subscription attempt r w).0
  validated-Retried (err e) w = tt
  validated-Retried (ok e) w = decoded-Retried e (decode subscription e) w

  defined-Retried :
      (message : Envelope) (r : Result DeliverError (Unit {0})) (w : World S)
      → Retried config attempt
          (defined valid config definitions decode session subscription message attempt r w).0
  defined-Retried message (err e) w = tt
  defined-Retried message (ok _) w =
      validated-Retried (check_envelope valid config definitions decode subscription message) w

-- A retry is decided for an attempt that is not the last: its number is at least 1 and below the
-- limit, and the error is not a permanent one, whatever the handler, the store and the transaction
-- did.
pub deliver-Retried :
    {S : Type 0} (valid : Text → Bool) (config : ConsumerConfig) (definitions : Map Subscription)
    (decode : Subscription → Envelope → Option (S → Option Bool × S)) (session : Session)
    (subscription : Subscription) (message : Envelope) (attempt : ℕ) (w : World S)
    → Retried config attempt
        (deliver valid config definitions decode session subscription message attempt w).0
unfolding deliver
deliver-Retried {S} valid config definitions decode session subscription message attempt w =
    go (attempt == 0) (ltb config.consumer_max_attempts attempt) refl
  where
    found : Result DeliverError (Unit {0})
    found = matches subscription (lookup subscription.name definitions)

    go :
        (a b : Bool)
        → (attempt == 0) ≡ a
        → Retried config attempt
            (if◌then◌else◌ {A = Decision × World S} a
              (dead_letter zero_attempt, w)
              (if b
                then (dead_letter too_many_attempts, w)
                else defined valid config definitions decode session subscription message attempt
                    found w)).0
    go true b e = tt
    go false true e = tt
    go false false e =
        defined-Retried valid config definitions decode session subscription attempt (ground arith)
          message found w
