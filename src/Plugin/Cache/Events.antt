-- ===== src/Plugin/Cache/Events.antt =====
-- What can happen to a compile cache, in any order (cool-next/plugin/host/manager/cache.go).
use cool_admin_go_next.Common.{ℕ, Bool, true, List, [], ◌∷◌, Text, map, if◌then◌else◌}
use cool_admin_go_next.Plugin.Cache.{
  Entry, Cache, complete_compile, release, settle, close_entry, finish_close, update, begin_acquire,
}

-- An entry is named by its place, and a reference of it by its number.
pub data Event : Type 0 where
  acquires : Text → Event
  compiles : ℕ → Bool → Event
  settles : ℕ → ℕ → Event
  gives_up : ℕ → ℕ → Event
  releases : ℕ → ℕ → Event
  shuts : Event
  finishes : ℕ → Event

-- The goroutine of a compilation ends once.
abbrev pub end_compile : Bool → Bool → Entry → Entry
end_compile closed success e = if e.is_compiling then complete_compile closed success e else e

-- `close` up to its wait.
unfoldable pub begin_close : Cache → Cache
unfolding close_entry
begin_close c =
    if c.closed then c else record { entries = map close_entry c.entries; closed = true }

unfoldable pub happen : Event → Cache → Cache
unfolding update begin_acquire complete_compile release begin_close finish_close
happen (acquires sha) c = begin_acquire sha c
happen (compiles i success) c = record c {
  entries = update i (end_compile c.closed success) c.entries;
}
happen (settles i r) c = record c { entries = update i (settle r) c.entries }
happen (gives_up i r) c = record c { entries = update i (release r) c.entries }
happen (releases i r) c = record c { entries = update i (release r) c.entries }
happen shuts c = begin_close c
happen (finishes i) c = record c { entries = update i finish_close c.entries }

unfoldable pub happen_all : List Event → Cache → Cache
unfolding happen
happen_all [] c = c
happen_all (e ∷ es) c = happen_all es (happen e c)
