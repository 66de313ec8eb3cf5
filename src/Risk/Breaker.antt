-- ===== src/Risk/Breaker.antt =====
-- The breaker between the risk service and Redis (cool-next/risk/risk.go): `execute` and the state
-- under `stateMu`. A request that may try Redis is in flight until it reports how that ended.
use cool_admin_go_next.Common.{
  ℕ, zero, suc, ◌+◌, Bool, true, false, List, [], ◌∷◌, Option, none, some, ltb, if◌then◌else◌,
  Result, ok, err, ◌||◌, get_elem?,
}
use cool_admin_go_next.Risk.Memory.{RiskResult}

pub record Breaker : Type 0 where
  pub degraded_until : Option ℕ
  pub is_probing : Bool

abbrev pub closed : Breaker
closed = record { degraded_until = none; is_probing = false }

-- riskRedisCooldown, in nanoseconds.
abbrev pub risk_redis_cooldown : ℕ
risk_redis_cooldown = 5_000_000_000

-- Whether Redis is tried, and whether that is a probe.
abbrev pub try_open : ℕ → Option ℕ → Breaker → (Bool × Bool) × Breaker
try_open now none b = ((true, false), b)
try_open now (some until) b =
    if ltb now until || b.is_probing
    then ((false, false), b)
    else ((true, true), record b { is_probing = true })

unfoldable pub begin_redis_attempt : ℕ → Breaker → (Bool × Bool) × Breaker
begin_redis_attempt now b = try_open now b.degraded_until b

abbrev pub cancel_redis_probe : Bool → Breaker → Breaker
cancel_redis_probe is_probe b = if is_probe then record b { is_probing = false } else b

abbrev pub mark_redis_failure : ℕ → Breaker → Breaker
mark_redis_failure now b = record {
  degraded_until = some (now + risk_redis_cooldown);
  is_probing = false;
}

abbrev pub mark_redis_success : Bool → Breaker → Breaker
mark_redis_success is_probe b = if is_probe then closed else b

-- What the operation on Redis came to: an answer, an error, or an error of a context that has ended.
pub data Reply : Type 0 where
  answered : RiskResult → Reply
  failed ended : Reply

pub data RiskError : Type 0 where
  context_error unavailable : RiskError

abbrev pub report : Bool → Reply → ℕ → Breaker → Breaker
report is_probe (answered r) now b = mark_redis_success is_probe b
report is_probe failed now b = mark_redis_failure now b
report is_probe ended now b = cancel_redis_probe is_probe b

abbrev pub fall_back : Bool → RiskResult → Result RiskError RiskResult
fall_back can_fallback fallback = if can_fallback then ok fallback else err unavailable

-- What the caller of `execute` gets; `fallback` is the memory backend's answer.
abbrev pub reply_to : Bool → RiskResult → Reply → Result RiskError RiskResult
reply_to can_fallback fallback (answered r) = ok r
reply_to can_fallback fallback failed = fall_back can_fallback fallback
reply_to can_fallback fallback ended = err context_error

-- `execute`, alone: the state of the breaker before the report is what `begin` left.
unfoldable pub execute :
    Bool → RiskResult → Reply → ℕ → ℕ → Breaker → Result RiskError RiskResult × Breaker
unfolding begin_redis_attempt
execute can_fallback fallback reply now later b =
    let ((should_attempt, is_probe), started) = begin_redis_attempt now b in
    if should_attempt
    then (reply_to can_fallback fallback reply, report is_probe reply later started)
    else (fall_back can_fallback fallback, started)

-- Requests at the same time: the requests in flight, each with its probe flag, the last first.
pub record Traffic : Type 0 where
  pub breaker : Breaker
  pub in_flight : List Bool

pub data Event : Type 0 where
  begins : ℕ → Event
  reports : ℕ → Reply → ℕ → Event  -- which request in flight, with what, and when

abbrev pub remove_at : ℕ → List Bool → List Bool
remove_at i [] = []
remove_at zero (x ∷ xs) = xs
remove_at (suc i) (x ∷ xs) = x ∷ remove_at i xs

abbrev pub begun : List Bool → (Bool × Bool) × Breaker → Traffic
begun in_flight ((should_attempt, is_probe), b) = record {
  breaker = b;
  in_flight = if should_attempt then is_probe ∷ in_flight else in_flight;
}

abbrev pub reported : ℕ → Reply → ℕ → Option Bool → Traffic → Traffic
reported i reply now none t = t
reported i reply now (some is_probe) t = record {
  breaker = report is_probe reply now t.breaker;
  in_flight = remove_at i t.in_flight;
}

unfoldable pub happen : Event → Traffic → Traffic
unfolding begin_redis_attempt
happen (begins now) t = begun t.in_flight (begin_redis_attempt now t.breaker)
happen (reports i reply now) t = reported i reply now (get_elem? t.in_flight i) t

unfoldable pub happen_all : List Event → Traffic → Traffic
unfolding happen
happen_all [] t = t
happen_all (e ∷ es) t = happen_all es (happen e t)

abbrev pub quiet : Traffic
quiet = record { breaker = closed; in_flight = [] }
