-- ===== src/Plugin/Examples.antt =====
-- The plugin manager's parts at concrete inputs (cool-next/plugin/host/manager).
use cool_admin_go_next.Common.{
  true, false, List, [], ◌∷◌, Text, codes, get_elem?, some, ◌≡◌, refl, inr, Text,
}
use cool_admin_go_next.Plugin.Cache.{Entry, new_cache, reference_compiled}
use cool_admin_go_next.Plugin.Cache.Events
use cool_admin_go_next.Plugin.Cache.Products.{
  IsAccounted, reference_compiled_held, happen_all-IsAccounted, happen_all-closes,
}
use cool_admin_go_next.Plugin.Generation
use cool_admin_go_next.Plugin.Generation.Draining.{
  IsSound, leave_all, generation-IsSound, shutdown_ends,
}

abbrev sha : Text
sha = codes "0123456789abcdef0123456789abcdef0123456789abcdef0123456789abcdef"

-- Two callers share a compilation, and the first one is done.
abbrev shared : List Events.Event
shared =
    Events.acquires sha
    ∷ Events.acquires sha
    ∷ Events.compiles 0 true
    ∷ Events.settles 0 0
    ∷ Events.releases 0 0
    ∷ []

abbrev shared_entry : Entry
shared_entry = record {
  sha = sha;
  compiled = true;
  has_error = false;
  references = 1;
  is_compiling = false;
  is_closed = false;
  cancelled = true;
  in_map = true;
  awaited = false;
  holders = false ∷ true ∷ [];
  made = 1;
  closes = 0;
}

shared_found : get_elem? (Events.happen_all shared new_cache).entries 0 ≡ some shared_entry
unfolding Events.happen_all
shared_found = refl

reference_compiled_held_example : reference_compiled 1 shared_entry ≡ true
unfolding Events.happen_all
reference_compiled_held_example =
    reference_compiled_held shared 0 1 shared_entry refl shared_found refl refl refl

happen_all-IsAccounted_example : IsAccounted shared_entry
happen_all-IsAccounted_example = happen_all-IsAccounted shared 0 shared_entry shared_found

-- The cache is closed while the second caller still holds its reference.
abbrev closed_early : List Events.Event
closed_early = Events.acquires sha ∷ Events.compiles 0 true ∷ Events.shuts ∷ Events.finishes 0 ∷ []

abbrev closed_entry : Entry
closed_entry = record {
  sha = sha;
  compiled = false;
  has_error = false;
  references = 1;
  is_compiling = false;
  is_closed = true;
  cancelled = true;
  in_map = false;
  awaited = false;
  holders = true ∷ [];
  made = 1;
  closes = 1;
}

closed_found : get_elem? (Events.happen_all closed_early new_cache).entries 0 ≡ some closed_entry
unfolding Events.happen_all
closed_found = refl

happen_all-closes_example :
    (closed_entry.compiled ≡ false) × (closed_entry.closes ≡ closed_entry.made)
unfolding Events.happen_all
happen_all-closes_example =
    happen_all-closes closed_early 0 closed_entry closed_found (refl, inr (refl, refl))

abbrev busy : List Generation.Event
busy = Generation.enters ∷ Generation.enters ∷ Generation.shuts ∷ Generation.leaves ∷ []

generation-IsSound_example : IsSound (Generation.happen_all busy Generation.new_generation)
generation-IsSound_example = generation-IsSound busy

shutdown_ends_example :
    (Generation.happen_all
      (leave_all (Generation.happen_all busy Generation.new_generation).callers)
      (Generation.happen_all busy Generation.new_generation)).shutdown_done
    ≡ true
unfolding Generation.happen_all
shutdown_ends_example = shutdown_ends busy refl
