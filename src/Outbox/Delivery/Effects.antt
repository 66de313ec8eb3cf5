-- ===== src/Outbox/Delivery/Effects.antt =====
-- A handler's effect happens once: what the inbox mark and the transaction give together.
use cool_admin_go_next.Common.{
  ℕ, ◌≡◌, refl, ◌∙◌, subst, Bool, true, false, not, List, Text, Option, none, some, Map, lookup,
  Result, ok, err, leb, ltb, ◌==◌, ◌||◌, if◌then◌else◌, arith, ◌⊎◌, inl, inr,
}
use cool_admin_go_next.Outbox.Statements.{Kind}
use cool_admin_go_next.Outbox.Store.{Db, Failure, insert_if_absent, marked}
use cool_admin_go_next.Outbox.Runs.{Call, run, run-Reach}
use cool_admin_go_next.Outbox.Inversion.{pair-eq}
use cool_admin_go_next.Outbox.Backoff.{retry_delay}
use cool_admin_go_next.Outbox.Settings.{ConsumerConfig}
use cool_admin_go_next.Outbox.Envelope.{
  Envelope, EnvelopeError, and_then, restore, new_envelope, clean_headers,
}
use cool_admin_go_next.Outbox.Consumer.{
  zero_attempt, too_many_attempts, not_committed, not_begun, context_ended, Subscription,
  DeliverError, Decision, ack, retry, dead_letter, Session, World, Delivery, matches, fits,
  rolled_back, commit, invoked, inserted, deliver_within, conclude_delivery, decoded, validated,
  check_envelope, defined, deliver, is_permanent,
}
use cool_admin_go_next.Outbox.Delivery.Marks.{Reach-marked, insert_if_absent-marked}

-- The effect of one transaction of a delivery on the handler's state and on the mark.
abbrev pub Effect :
    {S : Type 0} → Text → Text → (S → Option Bool × S) → World S → Delivery S → Type 0
Effect name id invoke w (err e, w') = w'.business ≡ w.business
Effect name id invoke w (ok _, w') =
    (marked name id w'.db ≡ true)
    × (((marked name id w.db ≡ true) × (w'.business ≡ w.business))
        ⊎ ((marked name id w.db ≡ false) × (invoke w.business ≡ (none, w'.business))))

and_then-eq-ok :
    {A B : Type 0} (r : Result EnvelopeError A) (f : A → Result EnvelopeError B) {b : B}
    → and_then r f ≡ ok b
    → (a : A) × (r ≡ ok a) × (f a ≡ ok b)
and_then-eq-ok (ok a) f h = (a, refl, h)
and_then-eq-ok (err e) f h = absurd (cc)

module _ {S : Type 0} (valid : Text → Bool) (config : ConsumerConfig)
    (definitions : Map Subscription)
    (decode : Subscription → Envelope → Option (S → Option Bool × S)) where
  -- A commit that fails is as if nothing had been written.
  commit-Effect :
      (name id : Text) (invoke : S → Option Bool × S) (session : Session) (w : World S) (db' : Db)
      (business : S)
      → Effect name id invoke w (ok tt, record { db = db'; business = business })
      → Effect name id invoke w (commit valid config definitions decode session w db' business)
  commit-Effect name id invoke session w db' business h = go session.commits
    where
      go :
          (b : Bool)
          → Effect name id invoke w (
              if b
              then (ok tt, record { db = db'; business = business })
              else rolled_back valid config definitions decode not_committed w db')
      go true = h
      go false = refl

  invoked-Effect :
      (name id : Text) (invoke : S → Option Bool × S) (session : Session) (w : World S) (db' : Db)
      (r : Option Bool × S)
      → marked name id w.db ≡ false
      → marked name id db' ≡ true
      → invoke w.business ≡ r
      → Effect name id invoke w (invoked valid config definitions decode session w db' r)
  invoked-Effect name id invoke session w db' (some permanent, business) before after e = refl
  invoked-Effect name id invoke session w db' (none, business) before after e = go session.ended
    where
      go :
          (b : Bool)
          → Effect name id invoke w (
              if b
              then rolled_back valid config definitions decode context_ended w db'
              else commit valid config definitions decode session w db' business)
      go true = refl
      go false = commit-Effect name id invoke session w db' business (after, inr (before, e))

  inserted-Effect :
      (name id : Text) (invoke : S → Option Bool × S) (session : Session) (w : World S)
      (r : Result Failure Bool × Db)
      → insert_if_absent session.same_group name id w.db ≡ r
      → Effect name id invoke w (inserted valid config definitions decode session invoke w r)
  inserted-Effect name id invoke session w (err e, db') h = refl
  inserted-Effect name id invoke session w (ok true, db') h =
      let (new, after) = insert_if_absent-marked session.same_group name id w.db h in
      invoked-Effect name id invoke session w db' (invoke w.business) (ground arith) after refl
  inserted-Effect name id invoke session w (ok false, db') h =
      let (new, after) = insert_if_absent-marked session.same_group name id w.db h in
      commit-Effect name id invoke session w db' w.business (after, inl (ground arith, refl))

  deliver_within-Effect :
      (invoke : S → Option Bool × S) (session : Session) (subscription : Subscription) (id : Text)
      (w : World S)
      → Effect subscription.name id invoke w
          (deliver_within valid config definitions decode session subscription id invoke w)
  unfolding deliver_within
  deliver_within-Effect invoke session subscription id w = go session.begins
    where
      found : Result Failure Bool × Db
      found = insert_if_absent session.same_group subscription.name id w.db

      go :
          (b : Bool)
          → Effect subscription.name id invoke w (
              if not b
              then (err not_begun, w)
              else inserted valid config definitions decode session invoke w found)
      go false = refl
      go true = inserted-Effect subscription.name id invoke session w found refl

  -- The handler of the subscription, on an envelope with the id, has made the one state of the other.
  abbrev pub Handled : Subscription → Text → S → S → Type 0
  Handled subscription id old new =
      (e : Envelope) × (invoke : S → Option Bool × S) × (e.message_id ≡ id)
      × (decode subscription e ≡ some invoke)
      × (invoke old ≡ (none, new))

  -- What a delivery does, by its decision.
  abbrev pub Delivered : Subscription → Text → World S → Decision × World S → Type 0
  Delivered subscription id w (ack, w') =
      (marked subscription.name id w'.db ≡ true)
      × (((marked subscription.name id w.db ≡ true) × (w'.business ≡ w.business))
          ⊎ ((marked subscription.name id w.db ≡ false)
              × Handled subscription id w.business w'.business))
  Delivered subscription id w (_, w') = w'.business ≡ w.business

  conclude-Delivered :
      (subscription : Subscription) (e : Envelope) (invoke : S → Option Bool × S)
      (session : Session) (attempt : ℕ) (w : World S) (r : Delivery S)
      → decode subscription e ≡ some invoke
      → Effect subscription.name e.message_id invoke w r
      → Delivered subscription e.message_id w
          (conclude_delivery valid config definitions decode session attempt r)
  conclude-Delivered subscription e invoke session attempt w (ok _, w') d (after, inl same) =
      (after, inl same)
  conclude-Delivered subscription e invoke session attempt w (ok _, w') d
        (after, inr (before, ran)) =
      (after, inr (before, (e, invoke, refl, d, ran)))
  conclude-Delivered subscription e invoke session attempt w (err x, w') d h =
      elim (is_permanent x || leb config.consumer_max_attempts attempt)
        as (λ b. Delivered subscription e.message_id w (
          if◌then◌else◌ {A = Decision × World S} b (dead_letter x, w')
            (
              retry
                  (retry_delay session.random config.consumer_retry_base config.consumer_retry_max
                    attempt)
                  x,
              w',
            ))) [ true ↦ h | false ↦ h ]

  decoded-Delivered :
      (session : Session) (subscription : Subscription) (attempt : ℕ) (e : Envelope)
      (invoke : Option (S → Option Bool × S)) (w : World S)
      → decode subscription e ≡ invoke
      → Delivered subscription e.message_id w
          (decoded valid config definitions decode session subscription attempt e invoke w)
  decoded-Delivered session subscription attempt e none w d = refl
  decoded-Delivered session subscription attempt e (some invoke) w d =
      conclude-Delivered subscription e invoke session attempt w _ d
        (deliver_within-Effect invoke session subscription e.message_id w)

  -- The envelope that passes the checks has the id of the one that came.
  new_envelope_id : (e e' : Envelope) → new_envelope valid e ≡ ok e' → e'.message_id ≡ e.message_id
  unfolding new_envelope
  new_envelope_id e e' h = ground arith

  restore_id : (e e' : Envelope) → restore valid e ≡ ok e' → e'.message_id ≡ e.message_id
  unfolding restore
  restore_id e e' h =
      let cleaned : and_then (clean_headers e.headers)
            (λ headers. new_envelope valid (record e { headers = headers }))
          ≡ ok e' =
        ground arith in
      let (headers, _, made) =
        and_then-eq-ok (clean_headers e.headers)
          (λ headers. new_envelope valid (record e { headers = headers })) cleaned in
      new_envelope_id (record e { headers = headers }) e' made

  fits_id :
      (subscription : Subscription) (e e' : Envelope)
      → fits subscription e ≡ ok e'
      → e'.message_id ≡ e.message_id
  fits_id subscription e e' h = ground arith

  validated-Delivered :
      (session : Session) (subscription : Subscription) (attempt : ℕ) (id : Text)
      (r : Result EnvelopeError Envelope) (w : World S)
      → ((e : Envelope) → r ≡ ok e → e.message_id ≡ id)
      → Delivered subscription id w
          (validated valid config definitions decode session subscription attempt r w)
  validated-Delivered session subscription attempt id (err e) w same = refl
  validated-Delivered session subscription attempt id (ok e) w same =
      subst
        (λ i. Delivered subscription i w (
          decoded valid config definitions decode session subscription attempt e
            (decode subscription e) w))
        (same e refl)
        (decoded-Delivered session subscription attempt e (decode subscription e) w refl)

  check_envelope_id :
      (subscription : Subscription) (message e : Envelope)
      → check_envelope valid config definitions decode subscription message ≡ ok e
      → e.message_id ≡ message.message_id
  unfolding check_envelope
  check_envelope_id subscription message e h =
      let (restored, one, two) = and_then-eq-ok (restore valid message) (fits subscription) h in
      fits_id subscription restored e two ∙ restore_id message restored one

  defined-Delivered :
      (session : Session) (subscription : Subscription) (message : Envelope) (attempt : ℕ)
      (r : Result DeliverError (Unit {0})) (w : World S)
      → Delivered subscription message.message_id w
          (defined valid config definitions decode session subscription message attempt r w)
  defined-Delivered session subscription message attempt (err e) w = refl
  defined-Delivered session subscription message attempt (ok _) w =
      validated-Delivered session subscription attempt message.message_id
        (check_envelope valid config definitions decode subscription message) w
        (λ e h. check_envelope_id subscription message e h)

  -- A delivery that is not acknowledged leaves the handlers' state as it was, whatever the handler,
  -- the store and the transaction did. One that is acknowledged leaves the message marked for the
  -- consumer; the handlers' state is as it was if the message was marked before, and otherwise it is
  -- what the subscription's handler has made of it, without an error.
  pub deliver-Delivered :
      (session : Session) (subscription : Subscription) (message : Envelope) (attempt : ℕ)
      (w : World S)
      → Delivered subscription message.message_id w
          (deliver valid config definitions decode session subscription message attempt w)
  unfolding deliver
  deliver-Delivered session subscription message attempt w =
      go (attempt == 0) (ltb config.consumer_max_attempts attempt)
    where
      rest : Decision × World S
      rest =
          defined valid config definitions decode session subscription message attempt
            (matches subscription (lookup subscription.name definitions)) w

      go :
          (a b : Bool)
          → Delivered subscription message.message_id w (
              if a
              then (dead_letter zero_attempt, w)
              else if b
              then (dead_letter too_many_attempts, w)
              else rest)
      go true b = refl
      go false true = refl
      go false false =
          defined-Delivered session subscription message attempt
            (matches subscription (lookup subscription.name definitions)) w

  Delivered-marked :
      (subscription : Subscription) (id : Text) (w : World S) (r : Decision × World S)
      → Delivered subscription id w r
      → marked subscription.name id w.db ≡ true
      → r.1.business ≡ w.business
  Delivered-marked subscription id w (ack, w') (after, inl (_, same)) m = same
  Delivered-marked subscription id w (ack, w') (after, inr (unmarked, _)) m = absurd (cc)
  Delivered-marked subscription id w (retry delay e, w') d m = d
  Delivered-marked subscription id w (dead_letter e, w') d m = d

  Delivered-ack :
      (subscription : Subscription) (id : Text) (w w' : World S) (r : Decision × World S)
      → r ≡ (ack, w')
      → Delivered subscription id w r
      → marked subscription.name id w'.db ≡ true
  Delivered-ack subscription id w w' (ack, w1) e d =
      subst (λ v. marked subscription.name id v.db ≡ true) (pair-eq e).1 d.0
  Delivered-ack subscription id w w' (retry delay x, w1) e d = absurd (cc (pair-eq e).0)
  Delivered-ack subscription id w w' (dead_letter x, w1) e d = absurd (cc (pair-eq e).0)

-- Once a delivery of a message to a consumer has been acknowledged, no later delivery of it has any
-- effect on the handlers' state: not after any run of the store's operations, whatever the handlers
-- have written meanwhile, in whatever session and at whatever attempt.
pub deliver_once :
    {S : Type 0} (valid : Text → Bool) (config : ConsumerConfig) (definitions : Map Subscription)
    (decode : Subscription → Envelope → Option (S → Option Bool × S)) (kind : Kind)
    (supply : ℕ → Text) (cs : List Call) (first second : Session) (subscription : Subscription)
    (message : Envelope) (attempt another : ℕ) (w w' : World S) (business : S)
    → deliver valid config definitions decode first subscription message attempt w ≡ (ack, w')
    → (deliver valid config definitions decode second subscription message another
        (record { db = run kind supply cs w'.db; business = business })).1.business
      ≡ business
deliver_once {S} valid config definitions decode kind supply cs first second subscription message
      attempt another w w' business h =
    let name = subscription.name in
    let id = message.message_id in
    let later : World S = record { db = run kind supply cs w'.db; business = business } in
    let first_marks : marked name id w'.db ≡ true =
      Delivered-ack valid config definitions decode subscription id w w' _ h
        (deliver-Delivered valid config definitions decode first subscription message attempt w) in
    Delivered-marked valid config definitions decode subscription id later _
      (deliver-Delivered valid config definitions decode second subscription message another later)
      (Reach-marked supply name id (run-Reach kind supply cs w'.db) first_marks)
