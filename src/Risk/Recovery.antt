-- ===== src/Risk/Recovery.antt =====
-- The breaker recovers.
use cool_admin_go_next.Common.{
  ℕ, zero, suc, ◌≡◌, refl, Bool, true, false, List, [], ◌∷◌, Option, none, some, ltb, leb,
  if◌then◌else◌, arith, any, ◌||◌, get_elem?,
}
use cool_admin_go_next.Risk.Breaker.{
  Breaker, try_open, begin_redis_attempt, Reply, answered, failed, ended, Traffic, Event, begins,
  reports, remove_at, begun, reported, happen, happen_all, quiet,
}

abbrev is_true : Bool → Bool
is_true b = b

-- While a probe is awaited, one is in flight.
abbrev Awaits : Traffic → Type 0
Awaits t = t.breaker.is_probing ≡ true → any is_true t.in_flight ≡ true

any-remove_at :
    (i : ℕ) (xs : List Bool)
    → get_elem? xs i ≡ some false
    → any is_true xs ≡ true
    → any is_true (remove_at i xs) ≡ true
any-remove_at i [] e h = absurd (cc)
any-remove_at zero (x ∷ xs) e h = ground arith
any-remove_at (suc i) (x ∷ xs) e h = ground (arith, any-remove_at i xs)

begins-Awaits : (now : ℕ) (t : Traffic) → Awaits t → Awaits (happen (begins now) t)
unfolding happen begin_redis_attempt
begins-Awaits now t h = go t.breaker.degraded_until
  where
    go : (d : Option ℕ) → Awaits (begun t.in_flight (try_open now d t.breaker))
    go none = (λ p. h p)
    go (some until) =
        elim (ltb now until || t.breaker.is_probing)
          as (λ x. Awaits (
            begun t.in_flight (
              if◌then◌else◌ {A = (Bool × Bool) × Breaker} x ((false, false), t.breaker)
                ((true, true), record t.breaker { is_probing = true })))) [
                  | true ↦ h
                  | false ↦ (λ p. refl)
                ]

reported-Awaits :
    (i : ℕ) (reply : Reply) (now : ℕ) (found : Option Bool) (t : Traffic)
    → get_elem? t.in_flight i ≡ found
    → Awaits t
    → Awaits (reported i reply now found t)
reported-Awaits i reply now none t e h = h
reported-Awaits i (answered r) now (some true) t e h = λ p. absurd (cc)
reported-Awaits i (answered r) now (some false) t e h = λ p. any-remove_at i t.in_flight e (h p)
reported-Awaits i failed now (some is_probe) t e h = λ p. absurd (cc)
reported-Awaits i ended now (some true) t e h = λ p. absurd (cc)
reported-Awaits i ended now (some false) t e h = λ p. any-remove_at i t.in_flight e (h p)

happen-Awaits : (e : Event) (t : Traffic) → Awaits t → Awaits (happen e t)
unfolding happen
happen-Awaits (begins now) t h = begins-Awaits now t h
happen-Awaits (reports i reply now) t h =
    reported-Awaits i reply now (get_elem? t.in_flight i) t refl h

happen_all-Awaits : (es : List Event) (t : Traffic) → Awaits t → Awaits (happen_all es t)
unfolding happen_all
happen_all-Awaits [] t h = h
happen_all-Awaits (e ∷ es) t h = happen_all-Awaits es (happen e t) (happen-Awaits e t h)

-- Whether Redis may be tried at the time, by the end of the cooldown.
abbrev pub is_due : ℕ → Option ℕ → Bool
is_due now none = true
is_due now (some until) = leb until now

idle_of :
    (probing : Bool) (in_flight : List Bool)
    → in_flight ≡ []
    → (probing ≡ true → any is_true in_flight ≡ true)
    → probing ≡ false
idle_of false in_flight e h = refl
idle_of true in_flight e h = let some_true = h refl in absurd (cc (rw e at some_true))

tries :
    (now : ℕ) (d : Option ℕ) (b : Breaker)
    → b.is_probing ≡ false
    → is_due now d ≡ true
    → (try_open now d b).0.0 ≡ true
tries now none b idle due = refl
tries now (some until) b idle due =
    let early : ltb now until ≡ false = ground arith in rw (early, idle)

-- The breaker is never stuck: after any interleaving of requests and of their ends, once none is in
-- flight any more, no probe is awaited, and the next request at or after the end of the cooldown
-- tries Redis.
pub happen_all_recovers :
    (es : List Event) (now : ℕ)
    → let later = happen_all es quiet in
      later.in_flight ≡ []
      → is_due now later.breaker.degraded_until ≡ true
      → (later.breaker.is_probing ≡ false) × ((begin_redis_attempt now later.breaker).0.0 ≡ true)
unfolding begin_redis_attempt
happen_all_recovers es now empty due =
    let later = happen_all es quiet in
    let awaits : Awaits later = happen_all-Awaits es quiet (λ p. absurd (cc)) in
    let idle : later.breaker.is_probing ≡ false =
      idle_of later.breaker.is_probing later.in_flight empty awaits in
    (idle, tries now later.breaker.degraded_until later.breaker idle due)
