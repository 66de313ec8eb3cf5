-- ===== src/Outbox/Examples/Numbers.antt =====
-- Delays, settings and ids at concrete values.
use cool_admin_go_next.Common.{
  ℕ, codes, false, ◌+◌, ◌*◌, ◌^◌, ◌/◌, ◌-◌, ◌≤◌, ◌<◌, min, ◌≡◌, refl, true, Text, arith, Option,
  none, some, if◌then◌else◌, ◌==◌, Bool-cases, inl, inr, ok, trim_space,
}
use cool_admin_go_next.Outbox.Record.{valid_message_id, hex_but_dashes}
use cool_admin_go_next.Outbox.Backoff.{
  capped_delay, capped_delay-doubled, retry_delay, retry_delay_bounds, lock_duration,
  lock_duration-doubled, grow, int64_less,
}
use cool_admin_go_next.Outbox.Settings.{
  default_config, validate, validate-components, check_worker, check_consumer, check_limits,
  worker_config, consumer_config, enqueue_limits, max_envelope_bytes, metadata_allowance,
}
use cool_admin_go_next.Outbox.MessageId.{
  new_message_id, valid_message_id-checked, new_message_id-valid, check_characters,
  check_message_id,
}

abbrev seconds : ℕ
seconds = 1_000_000_000

abbrev large : ℕ
large = 2 ^ 61 + 1

abbrev longest : ℕ
longest = 2 ^ 63 - 1

-- A cap of 2 ^ 63 - 1: the doubled base passes half of it, and its double would be negative.
capped_delay-doubled_example : capped_delay large longest 12 ≡ min longest (large * 2 ^ (12 - 1))
capped_delay-doubled_example = capped_delay-doubled large longest 12 (omega arith) (omega arith)

abbrev half : ℕ → Option ℕ
half n = if n == 0 then none else some (n / 2)

half_below : (n r : ℕ) → half n ≡ some r → r < n
half_below n r e = elim (Bool-cases (n == 0)) [
  | inl z ↦ absurd (cc (rw z at e))
  | inr p ↦ let same : n / 2 ≡ r = cc (rw p at e) in ground arith
]

attempt_three : retry_delay half seconds (300 * seconds) 3 ≡ some (3 * seconds)
unfolding retry_delay capped_delay grow int64_less
attempt_three = refl

retry_delay_bounds_example :
    let full = min (300 * seconds) (seconds * 2 ^ (3 - 1)) in
    (full / 2 ≤ 3 * seconds) × (3 * seconds ≤ full)
retry_delay_bounds_example =
    retry_delay_bounds half seconds (300 * seconds) 3 half_below (omega arith) (omega arith)
      attempt_three

-- Eight failures where five are allowed, and the same cap.
lock_duration-doubled_example : lock_duration large longest 5 8 ≡ min longest (large * 2 ^ (8 - 5))
lock_duration-doubled_example = lock_duration-doubled large longest 5 8 (omega arith) (omega arith)

default_config-validate : validate default_config ≡ ok tt
unfolding validate default_config trim_space
default_config-validate = refl

validate-components_example :
    (check_worker (worker_config default_config) ≡ ok tt)
    × (check_consumer (consumer_config default_config) ≡ ok tt)
    × (check_limits (enqueue_limits default_config) ≡ ok tt)
    × (max_envelope_bytes default_config
        ≡ default_config.max_payload_bytes + default_config.max_header_bytes + metadata_allowance)
    × (max_envelope_bytes default_config < 2 ^ 63)
validate-components_example = validate-components default_config default_config-validate

abbrev ones : ℕ → ℕ
ones _ = 255

new_message_id-valid_example :
    (made : Text) × (new_message_id (some 1_700_000_000_000) (some ones) ≡ ok made)
    × (valid_message_id made ≡ true)
    × (check_message_id made ≡ ok tt)
new_message_id-valid_example =
    new_message_id-valid 1_700_000_000_000 ones (omega arith) (λ i. omega arith)

abbrev stored_id : Text
stored_id = codes "01890000-0000-7000-8000-00000000000a"

stored_id-valid : valid_message_id stored_id ≡ true
unfolding valid_message_id hex_but_dashes
stored_id-valid = refl

valid_message_id-checked_example : check_message_id stored_id ≡ ok tt
valid_message_id-checked_example = valid_message_id-checked stored_id stored_id-valid

-- A dash in the first place passes the one check and not the other.
abbrev odd_id : Text
odd_id = codes "-1890000-0000-7000-8000-00000000000a"

odd_id-checked : (check_message_id odd_id ≡ ok tt) × (valid_message_id odd_id ≡ false)
unfolding check_message_id check_characters valid_message_id hex_but_dashes
odd_id-checked = (refl, refl)
