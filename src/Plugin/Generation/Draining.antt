-- ===== src/Plugin/Generation/Draining.antt =====
-- The draining of a generation (cool-next/plugin/host/manager/generation.go).
use cool_admin_go_next.Common.{
  ℕ, zero, suc, ◌+◌, ◌≤◌, ◌==◌, Bool, true, false, List, [], ◌∷◌, ◌&&◌, ◌≡◌, refl, ◌∙◌, arith,
}
use cool_admin_go_next.Plugin.Generation.{
  Generation, new_generation, Event, enters, leaves, times_out, shuts, ends_wait, happen,
  happen_all,
}

abbrev pub one_if : Bool → ℕ
one_if true = 1
one_if false = 0

-- The channel is closed exactly when the generation drains and no call is active; a shutdown that
-- has begun either waits or is done, once.
abbrev pub IsSound : Generation → Type 0
IsSound g =
    (g.panicked ≡ false)
    × (g.active ≡ g.callers)
    × (g.drained ≡ (g.draining && g.active == 0))
    × (one_if g.is_shutting_down ≡ one_if g.waiting + one_if g.shutdown_done)
    × (g.singleton_closes ≡ one_if g.shutdown_done)
    × (g.releases ≡ one_if g.shutdown_done)
    × (one_if g.is_shutting_down ≤ one_if g.draining)

happen-IsSound : (e : Event) (g : Generation) → IsSound g → IsSound (happen e g)
unfolding happen
happen-IsSound enters g h = ground arith
happen-IsSound leaves g h = ground arith
happen-IsSound times_out g h = ground arith
happen-IsSound shuts g h = ground arith
happen-IsSound (ends_wait timed_out) g h = ground arith

happen_all-IsSound : (es : List Event) (g : Generation) → IsSound g → IsSound (happen_all es g)
unfolding happen_all
happen_all-IsSound [] g h = h
happen_all-IsSound (e ∷ es) g h = happen_all-IsSound es (happen e g) (happen-IsSound e g h)

-- Whatever calls, time-outs and shutdowns came, in any order: nothing panicked; the active calls are
-- those that were let in and have not left; the channel is closed exactly when the generation
-- drains and none is left; a shutdown that has begun either waits or is done; and the singleton was
-- closed and the product released once if it is done and not before.
pub generation-IsSound : (es : List Event) → IsSound (happen_all es new_generation)
generation-IsSound es =
    happen_all-IsSound es new_generation (refl, refl, refl, refl, refl, refl, omega arith)

-- Every caller leaves, and the wait ends.
abbrev pub leave_all : ℕ → List Event
leave_all zero = ends_wait false ∷ []
leave_all (suc n) = leaves ∷ leave_all n

leaves_less :
    (g : Generation) (n : ℕ)
    → IsSound g
    → g.callers ≡ suc n
    → ((happen leaves g).callers ≡ n) × ((happen leaves g).is_shutting_down ≡ g.is_shutting_down)
unfolding happen
leaves_less g n h c = ground arith

ends_done :
    (g : Generation)
    → IsSound g
    → g.callers ≡ 0
    → g.is_shutting_down ≡ true
    → (happen (ends_wait false) g).shutdown_done ≡ true
unfolding happen
ends_done g h c s = ground arith

leave_all-done :
    (n : ℕ) (g : Generation)
    → IsSound g
    → g.callers ≡ n
    → g.is_shutting_down ≡ true
    → (happen_all (leave_all n) g).shutdown_done ≡ true
unfolding happen_all
leave_all-done zero g h c s = ends_done g h c s
leave_all-done (suc n) g h c s =
    let (fewer, same) = leaves_less g n h c in
    leave_all-done n (happen leaves g) (happen-IsSound leaves g h) fewer (same ∙ s)

-- A shutdown is never stuck: whatever has happened before, once it has begun it ends by the channel,
-- with no deadline, as soon as the calls that are still in have left.
pub shutdown_ends :
    (es : List Event)
    → (happen_all es new_generation).is_shutting_down ≡ true
    → (happen_all
        (leave_all (happen_all es new_generation).callers)
        (happen_all es new_generation)).shutdown_done
      ≡ true
shutdown_ends es s =
    let g = happen_all es new_generation in
    leave_all-done g.callers g (generation-IsSound es) refl s
