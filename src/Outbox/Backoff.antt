-- ===== src/Outbox/Backoff.antt =====
-- The delay before another attempt: `retryDelay` (cool-next/outbox/worker.go), `consumerDelay`
-- (consumer.go) and `riskLockDuration` (cool-next/risk/risk.go) double a base up to a cap.
-- Durations are int64 nanoseconds, here as their 64 bits: a product wraps, and what is 2 ^ 63 or more
-- is negative. The settings are checked to be positive, so that a cap can be halved as it is.
use native.Mathlib.Nat.{pow-suc}
use cool_admin_go_next.Common.{
  ℕ, zero, suc, ◌+◌, ◌-◌, ◌*◌, ◌/◌, ◌%◌, ◌^◌, ◌≤◌, ◌<◌, min, ◌≡◌, refl, sym, ap, ◌∙◌, ◌||◌, Option,
  Bool, not, none, some, arith, ltb, if◌then◌else◌, Bool-cases, inl, inr,
}

-- `first < second` of two int64.
unfoldable pub int64_less : ℕ → ℕ → Bool
int64_less first second = ltb ((first + 2 ^ 63) % 2 ^ 64) ((second + 2 ^ 63) % 2 ^ 64)

-- The body of the loop, with the rounds that are left.
unfoldable pub grow : ℕ → ℕ → ℕ → ℕ
unfolding int64_less
grow limit zero delay = delay
grow limit (suc rounds) delay =
    let more = grow limit rounds ((delay * 2) % 2 ^ 64) in
    if int64_less delay limit then (if int64_less (limit / 2) delay then limit else more) else delay

-- `for current := 1; current < attempt; current++` has `attempt - 1` rounds.
unfoldable pub capped_delay : ℕ → ℕ → ℕ → ℕ
unfolding grow int64_less
capped_delay base limit attempt =
    let delay = grow limit (attempt - 1) base in if int64_less limit delay then limit else delay

-- `rand.Int` below a bound, or its error.
abbrev pub jitter : (ℕ → Option ℕ) → ℕ → Option ℕ
jitter random delay =
    let floor = delay / 2 in
    elim (random (delay - floor + 1)) [ none ↦ none | some r ↦ some (floor + r) ]

unfoldable pub retry_delay : (ℕ → Option ℕ) → ℕ → ℕ → ℕ → Option ℕ
unfolding capped_delay
retry_delay random base limit attempt = jitter random (capped_delay base limit attempt)

-- The loop counts the failures past the limit down.
unfoldable pub lock_loop : ℕ → ℕ → ℕ → ℕ
unfolding int64_less
lock_loop limit zero duration = if int64_less limit duration then limit else duration
lock_loop limit (suc remaining) duration =
    let more = lock_loop limit remaining ((duration * 2) % 2 ^ 64) in
    if not (int64_less duration limit) || int64_less (limit / 2) duration then limit else more

unfoldable pub lock_duration : ℕ → ℕ → ℕ → ℕ → ℕ
unfolding lock_loop
lock_duration base limit failure_limit failures = lock_loop limit (failures - failure_limit) base

-- Doubling without a wrap, the closed form.
abbrev pub doubled : ℕ → ℕ → ℕ → ℕ
doubled base limit rounds = min limit (base * 2 ^ rounds)

pow_pos : (n : ℕ) → 0 < 2 ^ n
pow_pos zero = omega arith
pow_pos (suc n) = rw pow-suc (omega (arith, pow_pos n))

small_less :
    (first second : ℕ)
    → first < 2 ^ 63
    → second < 2 ^ 63
    → int64_less first second ≡ ltb first second
unfolding int64_less
small_less first second h k =
    let moved : (n : ℕ) → n < 2 ^ 63 → (n + 2 ^ 63) % 2 ^ 64 ≡ n + 2 ^ 63 = λ n b. omega arith in
    rw (moved first h, moved second k) (ground arith)

no_wrap : (limit delay : ℕ) → limit < 2 ^ 63 → delay ≤ limit / 2 → (delay * 2) % 2 ^ 64 ≡ delay * 2
no_wrap limit delay h k = omega arith

double_step : (delay rounds : ℕ) → delay * 2 * 2 ^ rounds ≡ delay * 2 ^ suc rounds
double_step delay rounds = rw pow-suc (grind arith)

le-mul_pos : (a p : ℕ) → 0 < p → a ≤ a * p
le-mul_pos a p h = grind arith

-- Both loops cap early exactly when the doubled value would pass the cap.
half_passed : (limit delay : ℕ) → limit / 2 < delay → limit ≤ delay * 2
half_passed limit delay h = omega arith

doubled-suc :
    (limit delay rounds : ℕ) → doubled (delay * 2) limit rounds ≡ doubled delay limit (suc rounds)
doubled-suc limit delay rounds = ap (min limit) (double_step delay rounds)

doubled-limit : (limit delay rounds : ℕ) → limit ≤ delay → doubled delay limit rounds ≡ limit
doubled-limit limit delay rounds h = omega (arith, le-mul_pos delay (2 ^ rounds) (pow_pos rounds))

grow-doubled :
    (limit rounds delay : ℕ)
    → limit < 2 ^ 63
    → delay ≤ limit
    → grow limit rounds delay ≡ doubled delay limit rounds
unfolding grow
grow-doubled limit zero delay h k = omega arith
grow-doubled limit (suc rounds) delay h k =
    let full_less : int64_less delay limit ≡ ltb delay limit =
      small_less delay limit (omega arith) h in
    let half_less : int64_less (limit / 2) delay ≡ ltb (limit / 2) delay =
      small_less (limit / 2) delay (omega arith) (omega arith) in
    elim (Bool-cases (ltb delay limit)) [
      | inl below ↦ elim (Bool-cases (ltb (limit / 2) delay)) [
        | inl past ↦
            rw (full_less, half_less, below, past)
              (sym (doubled-limit limit (delay * 2) rounds (half_passed limit delay (ground arith)))
                ∙ doubled-suc limit delay rounds)
        | inr under ↦
            rw (full_less, half_less, below, under, no_wrap limit delay h (ground arith))
              (grow-doubled limit rounds (delay * 2) h (ground arith)
                ∙ doubled-suc limit delay rounds)
      ]
      | inr full ↦
          rw (full_less, full)
            (sym (doubled-limit limit delay (suc rounds) (ground arith) ∙ ground arith))
    ]

-- For a base of at most the cap, the cap below 2 ^ 63, the delay before attempt number `attempt`
-- is the base doubled `attempt - 1` times or the cap, whichever is less: no product wraps.
pub capped_delay-doubled :
    (base limit attempt : ℕ)
    → limit < 2 ^ 63
    → base ≤ limit
    → capped_delay base limit attempt ≡ min limit (base * 2 ^ (attempt - 1))
unfolding capped_delay
capped_delay-doubled base limit attempt h k =
    rw
      (
        grow-doubled limit (attempt - 1) base h k,
        small_less limit (doubled base limit (attempt - 1)) h (omega arith),
      )
      (ground arith)

jitter_bounds :
    (random : ℕ → Option ℕ) (full : ℕ) {delay : ℕ}
    → ((n r : ℕ) → random n ≡ some r → r < n)
    → jitter random full ≡ some delay
    → (full / 2 ≤ delay) × (delay ≤ full)
jitter_bounds random full {delay} below e = go (random (full - full / 2 + 1)) refl e
  where
    go :
        (o : Option ℕ)
        → random (full - full / 2 + 1) ≡ o
        → (elim o [ none ↦ none | some r ↦ some (full / 2 + r) ]) ≡ some delay
        → (full / 2 ≤ delay) × (delay ≤ full)
    go none e d = absurd (cc)
    go (some r) e d =
        let small = below _ r e in let sum : full / 2 + r ≡ delay = cc in (omega arith, omega arith)

-- With a source that stays below its bound, a delay that is computed lies between half of the
-- capped exponential backoff and all of it.
pub retry_delay_bounds :
    (random : ℕ → Option ℕ) (base limit attempt : ℕ) {delay : ℕ}
    → ((n r : ℕ) → random n ≡ some r → r < n)
    → limit < 2 ^ 63
    → base ≤ limit
    → retry_delay random base limit attempt ≡ some delay
    → let full = min limit (base * 2 ^ (attempt - 1)) in (full / 2 ≤ delay) × (delay ≤ full)
unfolding retry_delay
retry_delay_bounds random base limit attempt {delay} below h k e =
    rw (← capped_delay-doubled base limit attempt h k)
      (jitter_bounds random (capped_delay base limit attempt) below e)

lock_loop-doubled :
    (limit remaining duration : ℕ)
    → limit < 2 ^ 63
    → duration < 2 ^ 63
    → lock_loop limit remaining duration ≡ doubled duration limit remaining
unfolding lock_loop
lock_loop-doubled limit zero duration h k = rw (small_less limit duration h k) (ground arith)
lock_loop-doubled limit (suc remaining) duration h k =
    let full_less : int64_less duration limit ≡ ltb duration limit =
      small_less duration limit k h in
    let half_less : int64_less (limit / 2) duration ≡ ltb (limit / 2) duration =
      small_less (limit / 2) duration (omega arith) k in
    elim (Bool-cases (not (ltb duration limit) || ltb (limit / 2) duration)) [
      | inl past ↦
          rw (full_less, half_less, past)
            (sym (doubled-limit limit (duration * 2) remaining (ground arith))
              ∙ doubled-suc limit duration remaining)
      | inr under ↦
          rw (full_less, half_less, under, no_wrap limit duration h (ground arith))
            (lock_loop-doubled limit remaining (duration * 2) h (ground arith)
              ∙ doubled-suc limit duration remaining)
    ]

-- For a base and a cap below 2 ^ 63, an account is locked for the base doubled once for each failure
-- past the limit, or for the cap, whichever is less: no product wraps.
pub lock_duration-doubled :
    (base limit failure_limit failures : ℕ)
    → limit < 2 ^ 63
    → base < 2 ^ 63
    → lock_duration base limit failure_limit failures
      ≡ min limit (base * 2 ^ (failures - failure_limit))
unfolding lock_duration
lock_duration-doubled base limit failure_limit failures h k =
    lock_loop-doubled limit (failures - failure_limit) base h k
