-- ===== src/Outbox/Examples/Delivery.antt =====
-- A consumer that counts messages, and a message that is delivered twice.
use cool_admin_go_next.Common.{
  ℕ, suc, ◌≡◌, refl, Bool, true, false, [], ◌∷◌, Text, codes, Option, none, some, Map, lookup,
  trim_space, is_space, is_control, lower,
}
use cool_admin_go_next.Outbox.Record.{valid_message_id, hex_but_dashes}
use cool_admin_go_next.Outbox.Statements.{sqlite}
use cool_admin_go_next.Outbox.Store.{insert_if_absent}
use cool_admin_go_next.Outbox.Runs.{run}
use cool_admin_go_next.Outbox.Settings.{ConsumerConfig}
use cool_admin_go_next.Outbox.MessageId.{check_message_id, check_characters}
use cool_admin_go_next.Outbox.Envelope.{
  Envelope, restore, new_envelope, clean_headers, clean_headers_from,
}
use cool_admin_go_next.Outbox.Consumer.{
  Subscription, Decision, ack, Session, World, deliver, deliver_within, check_envelope,
}
use cool_admin_go_next.Outbox.Delivery.Effects.{Delivered, deliver-Delivered, deliver_once}
use cool_admin_go_next.Outbox.Delivery.Retries.{Retried, deliver-Retried}
use cool_admin_go_next.Outbox.Examples.{supply, script, empty_db, first_message}

abbrev any_json : Text → Bool
any_json _ = true

abbrev config : ConsumerConfig
config = record {
  consumer_timeout = 30;
  consumer_max_attempts = 12;
  consumer_retry_base = 1;
  consumer_retry_max = 300;
}

abbrev counter : Subscription
counter = record {
  name = codes "counter";
  topic = codes "user";
  message_type = codes "user.created";
  supported_versions = 1 ∷ [];
}

abbrev registered : Map Subscription
registered = (codes "counter", counter) ∷ []

-- The handler adds one.
abbrev counting : Subscription → Envelope → Option (ℕ → Option Bool × ℕ)
counting _ _ = some (λ n. (none, suc n))

abbrev session : Session
session = record {
  begins = true;
  same_group = true;
  ended = false;
  commits = true;
  random = λ n. some 0;
}

abbrev envelope : Envelope
envelope = record {
  message_id = first_message.message_id;
  topic = codes "user";
  message_type = codes "user.created";
  version = 1;
  key = none;
  payload = codes "{}";
  headers = [];
}

abbrev before : World ℕ
before = record { db = empty_db; business = 41 }

abbrev delivery : Decision × World ℕ
delivery = deliver any_json config registered counting session counter envelope 1 before

delivery_acks : (delivery ≡ (ack, delivery.1)) × (delivery.1.business ≡ 42)
unfolding deliver deliver_within check_envelope restore new_envelope clean_headers
    clean_headers_from check_message_id check_characters insert_if_absent valid_message_id
    hex_but_dashes trim_space is_space is_control lookup lower
delivery_acks = (refl, refl)

deliver-Delivered_example :
    Delivered any_json config registered counting counter first_message.message_id before delivery
deliver-Delivered_example =
    deliver-Delivered any_json config registered counting session counter envelope 1 before

deliver_once_example :
    (deliver any_json config registered counting session counter envelope 2
      (record { db = run sqlite supply script delivery.1.db; business = 42 })).1.business
    ≡ 42
deliver_once_example =
    deliver_once any_json config registered counting sqlite supply script session session counter
      envelope 1 2 before delivery.1 42 delivery_acks.0

-- A handler that fails is tried again.
abbrev failing : Subscription → Envelope → Option (ℕ → Option Bool × ℕ)
failing _ _ = some (λ n. (some false, suc n))

deliver-Retried_example :
    Retried config 3
      (deliver any_json config registered failing session counter envelope 3 before).0
deliver-Retried_example =
    deliver-Retried any_json config registered failing session counter envelope 3 before
