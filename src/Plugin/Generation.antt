-- ===== src/Plugin/Generation.antt =====
-- A published plugin and its calls (cool-next/plugin/host/manager/generation.go). Each method holds
-- the generation's mutex, so it is one step. Closing the channel `drained` a second time, and
-- releasing what is not held, are panics of Go, which the state records. `callers` counts the calls
-- in between `acquire` and `release`, which the manager pairs (invocation.go).
pub mod Draining
use cool_admin_go_next.Common.{
  ℕ, zero, suc, ◌==◌, Bool, true, false, not, List, [], ◌∷◌, if◌then◌else◌, ◌&&◌, ◌||◌,
}

pub record Generation : Type 0 where
  pub active : ℕ
  pub draining : Bool
  pub drained : Bool
  pub panicked : Bool
  pub callers : ℕ
  pub is_shutting_down : Bool
  pub waiting : Bool
  pub shutdown_done : Bool
  pub cancelled : Bool
  pub singleton_closes : ℕ
  pub releases : ℕ

abbrev pub new_generation : Generation
new_generation = record {
  active = 0;
  draining = false;
  drained = false;
  panicked = false;
  callers = 0;
  is_shutting_down = false;
  waiting = false;
  shutdown_done = false;
  cancelled = false;
  singleton_closes = 0;
  releases = 0;
}

-- close(generation.drained)
abbrev pub close_drained : Generation → Generation
close_drained g = if g.drained then record g { panicked = true } else record g { drained = true }

-- `acquire`: whether the call may go on.
unfoldable pub acquire : Generation → Bool × Generation
acquire g = if g.draining then (false, g) else (true, record g { active = suc g.active })

unfoldable pub release : Generation → Generation
release g = elim g.active [
  | zero ↦ record g { panicked = true }
  | suc n ↦
      let less = record g { active = n } in
      if less.draining && n == 0 then close_drained less else less
]

unfoldable pub begin_drain : Generation → Generation
begin_drain g =
    if g.draining
    then g
    else let started = record g { draining = true } in
      if g.active == 0 then close_drained started else started

-- `shutdown`, for the caller that is the first one, up to its wait in `shutdownOnce`.
unfoldable pub begin_shutdown : Generation → Generation
unfolding begin_drain
begin_shutdown g =
    if g.is_shutting_down
    then g
    else begin_drain (record g { is_shutting_down = true; waiting = true })

-- The end of the wait, by the channel or by the deadline: the calls are cancelled, the singleton is
-- closed and the product is released, on both paths.
unfoldable pub end_shutdown : Bool → Generation → Generation
end_shutdown timed_out g =
    if g.waiting && (timed_out || g.drained)
    then record g {
      waiting = false;
      cancelled = true;
      singleton_closes = suc g.singleton_closes;
      releases = suc g.releases;
      shutdown_done = true;
    }
    else g

pub data Event : Type 0 where
  enters leaves times_out shuts : Event
  ends_wait : Bool → Event

-- A call that was let in is one more caller.
abbrev pub entered : Bool × Generation → Generation
entered (false, g) = g
entered (true, g) = record g { callers = suc g.callers }

-- A call of a singleton that timed out starts the draining from within, before it leaves.
unfoldable pub happen : Event → Generation → Generation
unfolding acquire release begin_drain begin_shutdown end_shutdown
happen enters g = entered (acquire g)
happen leaves g = elim g.callers [ zero ↦ g | suc n ↦ release (record g { callers = n }) ]
happen times_out g = elim g.callers [ zero ↦ g | suc _ ↦ begin_drain g ]
happen shuts g = begin_shutdown g
happen (ends_wait timed_out) g = end_shutdown timed_out g

unfoldable pub happen_all : List Event → Generation → Generation
unfolding happen
happen_all [] g = g
happen_all (e ∷ es) g = happen_all es (happen e g)
