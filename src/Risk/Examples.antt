-- ===== src/Risk/Examples.antt =====
-- Requests to the memory backend and to the breaker at concrete times.
use cool_admin_go_next.Common.{◌≡◌, refl, true, false, List, [], ◌∷◌, codes, arith, some, lookup}
use cool_admin_go_next.Outbox.Backoff.{lock_duration}
use cool_admin_go_next.Risk.Memory.{Limits, limited, not_matched, Backend, Account, new_backend}
use cool_admin_go_next.Risk.Operations.{consume_captcha, allow_login, record_login_failure}
use cool_admin_go_next.Risk.Keeping.{IsBounded}
use cool_admin_go_next.Risk.Runs.{
  Timed, op_allow_captcha, op_save_captcha, op_allow_login, op_record_failure, perform_all,
}
use cool_admin_go_next.Risk.Capacity.Requests.{perform_all-IsBounded}
use cool_admin_go_next.Risk.Captchas.{consume_captcha_once}
use cool_admin_go_next.Risk.Locks.Requests.{record_login_failure_locks}
use cool_admin_go_next.Risk.Breaker.{
  Event, begins, reports, failed, quiet, happen_all, happen, begin_redis_attempt,
}
use cool_admin_go_next.Risk.Recovery.{happen_all_recovers}

-- Seconds, and small capacities.
abbrev limits : Limits
limits = record {
  client_capacity = 2;
  account_capacity = 2;
  captcha_ttl = 300;
  captcha_capacity = 2;
  outstanding_per_ip = 1;
  captcha_rate_limit = 10;
  captcha_rate_window = 60;
  ip_rate_limit = 20;
  ip_rate_window = 60;
  failure_limit = 3;
  failure_window = 900;
  lock_base = 60;
  lock_max = 1800;
}

abbrev timed_save : Timed
timed_save = record { op = op_save_captcha (codes "ip") (codes "c1") (codes "x7"); now = 100 }

abbrev requests : List Timed
requests =
    record { op = op_allow_captcha (codes "ip"); now = 100 }
    ∷ timed_save
    ∷ record { op = op_save_captcha (codes "ip") (codes "c2") (codes "y8"); now = 101 }
    ∷ record { op = op_allow_login (codes "ip2") (codes "admin"); now = 102 }
    ∷ record { op = op_record_failure (codes "admin"); now = 103 }
    ∷ []

perform_all-IsBounded_example : IsBounded limits (perform_all limits requests new_backend)
perform_all-IsBounded_example = perform_all-IsBounded limits requests new_backend (record {
  clients = omega arith;
  accounts = omega arith;
  captchas = omega arith;
  outstanding = λ client. unfold lookup in omega arith;
})

abbrev saved : Backend
saved = perform_all limits requests new_backend

-- The right answer after the wrong one comes too late.
consume_captcha_once_example :
    (consume_captcha limits (codes "c1") (codes "x7") 120 (
      perform_all limits
        (record { op = op_allow_captcha (codes "ip"); now = 115 } ∷ [])
        (consume_captcha limits (codes "c1") (codes "wrong") 110 saved).1)).0
    ≡ not_matched
consume_captcha_once_example =
    consume_captcha_once limits (codes "c1") (codes "wrong") (codes "x7") 110 120
      (record { op = op_allow_captcha (codes "ip"); now = 115 } ∷ []) saved (refl, tt)

abbrev failing : Account
failing = record { failures = 2; last_failure = some 950; lock_until = 0; expires_at = 1850 }

abbrev two_failures : Backend
two_failures = record new_backend { accounts = (codes "admin", failing) ∷ [] }

admin_known : lookup (codes "admin") two_failures.accounts ≡ some failing
unfolding lookup
admin_known = refl

-- The third failure locks the account for a minute, whichever client asks.
record_login_failure_locks_example :
    (allow_login limits (codes "ip") (codes "admin") 1030 (
      perform_all limits
        (record { op = op_record_failure (codes "admin"); now = 1010 } ∷ [])
        (record_login_failure limits (codes "admin") 1000 two_failures).1)).0
    ≡ limited
unfolding lock_duration
record_login_failure_locks_example =
    record_login_failure_locks limits (codes "admin") (codes "ip") 1000 1030 failing
      (record { op = op_record_failure (codes "admin"); now = 1010 } ∷ []) two_failures admin_known
      (omega arith) (omega arith) refl (omega arith) ((refl, omega arith), tt) (omega arith)

-- Redis fails, a probe begins after the cooldown and fails as well.
abbrev outage : List Event
outage =
    begins 1
    ∷ reports 0 failed 2
    ∷ begins 6_000_000_000
    ∷ begins 6_000_000_001
    ∷ reports 0 failed 6_000_000_002
    ∷ []

outage_ends : (happen_all outage quiet).in_flight ≡ []
unfolding happen_all happen begin_redis_attempt
outage_ends = refl

happen_all_recovers_example :
    let later = happen_all outage quiet in
    (later.breaker.is_probing ≡ false)
    × ((begin_redis_attempt 12_000_000_000 later.breaker).0.0 ≡ true)
unfolding happen_all happen begin_redis_attempt
happen_all_recovers_example = happen_all_recovers outage 12_000_000_000 outage_ends refl
