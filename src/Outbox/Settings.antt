-- ===== src/Outbox/Settings.antt =====
-- The settings (cool-next/outbox/config.go), and what the components check of theirs
-- (worker.go, consumer.go, enqueuer.go). A setting is an int, an int64 duration or a uint32 in the
-- source; the negative values, which every check refuses together with 0, are left out.
use cool_admin_go_next.Common.{
  ℕ, ◌+◌, ◌-◌, ◌*◌, ◌^◌, ◌%◌, codes, ◌≤◌, ◌<◌, ◌≡◌, Bool, true, ◌||◌, not, Text, Result, ok, err,
  ltb, leb, ◌==◌, if◌then◌else◌, trim_space, is_empty_text, text_eq, arith,
}

pub record Config : Type 0 where
  pub enabled : Bool
  pub database_group : Text
  pub poll_interval : ℕ
  pub batch_size : ℕ
  pub lease_duration : ℕ
  pub publish_timeout : ℕ
  pub publish_max_attempts : ℕ
  pub publish_retry_base : ℕ
  pub publish_retry_max : ℕ
  pub consumer_timeout : ℕ
  pub consumer_max_attempts : ℕ
  pub consumer_retry_base : ℕ
  pub consumer_retry_max : ℕ
  pub retention : ℕ
  pub max_payload_bytes : ℕ
  pub max_header_bytes : ℕ

pub record WorkerConfig : Type 0 where
  pub poll_interval : ℕ
  pub batch_size : ℕ
  pub lease_duration : ℕ
  pub publish_timeout : ℕ
  pub publish_max_attempts : ℕ
  pub publish_retry_base : ℕ
  pub publish_retry_max : ℕ
  pub retention : ℕ

pub record ConsumerConfig : Type 0 where
  pub consumer_timeout : ℕ
  pub consumer_max_attempts : ℕ
  pub consumer_retry_base : ℕ
  pub consumer_retry_max : ℕ

pub record EnqueueLimits : Type 0 where
  pub max_payload_bytes : ℕ
  pub max_header_bytes : ℕ
  pub max_envelope_bytes : ℕ

pub data ConfigError : Type 0 where
  bad_group not_positive timeout_over_lease publish_base_over_max consumer_base_over_max :
      ConfigError
  size_overflow : ConfigError

abbrev pub metadata_allowance : ℕ
metadata_allowance = 64 * 1024

abbrev pub max_int : ℕ
max_int = 2 ^ 63 - 1

abbrev pub second : ℕ
second = 1_000_000_000

-- The subtraction is the source's: sizes so large that it would go below 0 are refused there, and
-- the truncated one refuses them too.
unfoldable pub validate : Config → Result ConfigError (Unit {0})
validate c =
    if is_empty_text (trim_space c.database_group)
      || not (text_eq (trim_space c.database_group) c.database_group)
    then err bad_group
    else if leb c.poll_interval 0
        || leb c.batch_size 0
        || leb c.lease_duration 0
        || leb c.publish_timeout 0
        || c.publish_max_attempts == 0
        || leb c.publish_retry_base 0
        || leb c.publish_retry_max 0
        || leb c.consumer_timeout 0
        || c.consumer_max_attempts == 0
        || leb c.consumer_retry_base 0
        || leb c.consumer_retry_max 0
        || leb c.retention 0
        || leb c.max_payload_bytes 0
        || leb c.max_header_bytes 0
    then err not_positive
    else if leb c.lease_duration c.publish_timeout
    then err timeout_over_lease
    else if ltb c.publish_retry_max c.publish_retry_base
    then err publish_base_over_max
    else if ltb c.consumer_retry_max c.consumer_retry_base
    then err consumer_base_over_max
    else if ltb (max_int - c.max_header_bytes - metadata_allowance) c.max_payload_bytes
    then err size_overflow
    else ok tt

-- `MaxEnvelopeBytes`, an int
unfoldable pub max_envelope_bytes : Config → ℕ
max_envelope_bytes c = (c.max_payload_bytes + c.max_header_bytes + metadata_allowance) % 2 ^ 64

abbrev pub worker_config : Config → WorkerConfig
worker_config c = record {
  poll_interval = c.poll_interval;
  batch_size = c.batch_size;
  lease_duration = c.lease_duration;
  publish_timeout = c.publish_timeout;
  publish_max_attempts = c.publish_max_attempts;
  publish_retry_base = c.publish_retry_base;
  publish_retry_max = c.publish_retry_max;
  retention = c.retention;
}

abbrev pub consumer_config : Config → ConsumerConfig
consumer_config c = record {
  consumer_timeout = c.consumer_timeout;
  consumer_max_attempts = c.consumer_max_attempts;
  consumer_retry_base = c.consumer_retry_base;
  consumer_retry_max = c.consumer_retry_max;
}

abbrev pub enqueue_limits : Config → EnqueueLimits
unfolding max_envelope_bytes
enqueue_limits c = record {
  max_payload_bytes = c.max_payload_bytes;
  max_header_bytes = c.max_header_bytes;
  max_envelope_bytes = max_envelope_bytes c;
}

unfoldable pub check_worker : WorkerConfig → Result ConfigError (Unit {0})
check_worker c =
    if leb c.poll_interval 0
      || leb c.batch_size 0
      || leb c.lease_duration 0
      || leb c.publish_timeout 0
      || c.publish_max_attempts == 0
      || leb c.publish_retry_base 0
      || leb c.publish_retry_max 0
      || leb c.retention 0
    then err not_positive
    else if leb c.lease_duration c.publish_timeout
    then err timeout_over_lease
    else if ltb c.publish_retry_max c.publish_retry_base
    then err publish_base_over_max
    else ok tt

unfoldable pub check_consumer : ConsumerConfig → Result ConfigError (Unit {0})
check_consumer c =
    if leb c.consumer_timeout 0
      || c.consumer_max_attempts == 0
      || leb c.consumer_retry_base 0
      || leb c.consumer_retry_max 0
    then err not_positive
    else if ltb c.consumer_retry_max c.consumer_retry_base
    then err consumer_base_over_max
    else ok tt

-- The test of `NewEnqueuer`.
unfoldable pub check_limits : EnqueueLimits → Result ConfigError (Unit {0})
check_limits l =
    if leb l.max_payload_bytes 0 || leb l.max_header_bytes 0 || leb l.max_envelope_bytes 0
    then err not_positive
    else ok tt

unfoldable pub default_config : Config
default_config = record {
  enabled = true;
  database_group = codes "default";
  poll_interval = 500 * 1_000_000;
  batch_size = 100;
  lease_duration = 30 * second;
  publish_timeout = 10 * second;
  publish_max_attempts = 12;
  publish_retry_base = second;
  publish_retry_max = 5 * 60 * second;
  consumer_timeout = 30 * second;
  consumer_max_attempts = 12;
  consumer_retry_base = second;
  consumer_retry_max = 5 * 60 * second;
  retention = 168 * 3600 * second;
  max_payload_bytes = 1_048_576;
  max_header_bytes = 16_384;
}

-- What a configuration that passes has.
record IsValid (c : Config) : Type 0 where
  poll : 0 < c.poll_interval
  batch : 0 < c.batch_size
  lease : 0 < c.lease_duration
  timeout : c.publish_timeout < c.lease_duration
  timeout_pos : 0 < c.publish_timeout
  attempts : 0 < c.publish_max_attempts
  base : 0 < c.publish_retry_base
  base_max : c.publish_retry_base ≤ c.publish_retry_max
  consumer : 0 < c.consumer_timeout
  consumer_attempts : 0 < c.consumer_max_attempts
  consumer_base : 0 < c.consumer_retry_base
  consumer_base_max : c.consumer_retry_base ≤ c.consumer_retry_max
  retained : 0 < c.retention
  payload : 0 < c.max_payload_bytes
  headers : 0 < c.max_header_bytes
  sizes : c.max_payload_bytes + c.max_header_bytes + metadata_allowance ≤ max_int

validate-IsValid : (c : Config) → validate c ≡ ok tt → IsValid c
unfolding validate
validate-IsValid c h = ground arith

-- A configuration that `validate` accepts gives every component settings that the component's own
-- check accepts: the worker, the consumer and the enqueuer can all be built. The envelope limit,
-- computed in machine integers, is the exact sum of the payload and header limits and the
-- allowance, and lies below 2 ^ 63.
pub validate-components :
    (c : Config)
    → validate c ≡ ok tt
    → (check_worker (worker_config c) ≡ ok tt)
      × (check_consumer (consumer_config c) ≡ ok tt)
      × (check_limits (enqueue_limits c) ≡ ok tt)
      × (max_envelope_bytes c ≡ c.max_payload_bytes + c.max_header_bytes + metadata_allowance)
      × (max_envelope_bytes c < 2 ^ 63)
unfolding check_worker check_consumer check_limits max_envelope_bytes
validate-components c h =
    let v = validate-IsValid c h in
    (ground arith, ground arith, ground arith, omega arith, omega arith)
