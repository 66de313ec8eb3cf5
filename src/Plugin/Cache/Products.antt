-- ===== src/Plugin/Cache/Products.antt =====
-- What becomes of the products of the compile cache (cool-next/plugin/host/manager/cache.go).
use cool_admin_go_next.Common.{
  ℕ, zero, suc, ◌+◌, ◌≤◌, Bool, true, false, not, List, [], ◌∷◌, Text, text_eq, map, count, get_or,
  get_elem?, some, if◌then◌else◌, ◌&&◌, ◌≡◌, refl, subst, All, Bool-cases, inl, inr, ◌⊎◌, arith,
  &&_left,
}
use cool_admin_go_next.Plugin.Cache.{
  Entry, Cache, new_cache, one_if, release, settle, close_entry, finish_close, reference_compiled,
  update, join_or_add, begin_acquire, check_sha,
}
use cool_admin_go_next.Plugin.Cache.Events.{
  Event, acquires, compiles, settles, gives_up, releases, shuts, finishes, end_compile, begin_close,
  happen, happen_all,
}
use cool_admin_go_next.Plugin.Cache.Phases.{
  Phase, compiling, ready, failed, dropped, awaited_compile, awaited_product, awaited_failure,
  finished, end_compile-Phase, release-Phase, settle-Phase, close_entry-Phase, finish_close-Phase,
  join_entry-Phase,
}
use cool_admin_go_next.Plugin.Cache.Counting.{
  IsCounted, count-set_released, end_compile-IsCounted, release-IsCounted, settle-IsCounted,
  close_entry-IsCounted, finish_close-IsCounted, join_entry-IsCounted,
}

abbrev IsSound : Bool → Entry → Type 0
IsSound closed e = Phase closed e × IsCounted e

update-All :
    (P : Entry → Type 0) (f : Entry → Entry) (i : ℕ) (es : List Entry)
    → ((e : Entry) → P e → P (f e))
    → All P es
    → All P (update i f es)
unfolding update
update-All P f i [] keep h = tt
update-All P f zero (e ∷ es) keep h = (keep e h.0, h.1)
update-All P f (suc i) (e ∷ es) keep h = (h.0, update-All P f i es keep h.1)

join_or_add-IsSound :
    (sha : Text) (es : List Entry)
    → All (IsSound false) es
    → All (IsSound false) (join_or_add sha es)
unfolding join_or_add
join_or_add-IsSound sha [] h = ((compiling sha 1 (true ∷ []) false, refl), tt)
join_or_add-IsSound sha (e ∷ es) h = elim (Bool-cases (e.in_map && text_eq e.sha sha)) [
  | inl found ↦ rw found (
    (
      join_entry-Phase h.0.0 (&&_left e.in_map (text_eq e.sha sha) found),
      join_entry-IsCounted e h.0.1,
    ),
    h.1,
  )
  | inr other ↦ rw other (h.0, join_or_add-IsSound sha es h.1)
]

close-IsSound : (es : List Entry) → All (IsSound false) es → All (IsSound true) (map close_entry es)
close-IsSound [] h = tt
close-IsSound (e ∷ es) h =
    ((close_entry-Phase h.0.0, close_entry-IsCounted e h.0.1), close-IsSound es h.1)

abbrev IsSoundCache : Cache → Type 0
IsSoundCache c = All (IsSound c.closed) c.entries

begin_acquire-IsSoundCache :
    (sha : Text) (closed : Bool) (es : List Entry)
    → All (IsSound closed) es
    → IsSoundCache (begin_acquire sha (record { entries = es; closed = closed }))
unfolding begin_acquire
begin_acquire-IsSoundCache sha closed es h = go (check_sha sha) closed h
  where
    go :
        (valid closed : Bool)
        → All (IsSound closed) es
        → IsSoundCache (
            if valid && not closed
            then record { entries = join_or_add sha es; closed = closed }
            else record { entries = es; closed = closed })
    go true true h = h
    go true false h = join_or_add-IsSound sha es h
    go false closed h = h

begin_close-IsSoundCache :
    (closed : Bool) (es : List Entry)
    → All (IsSound closed) es
    → IsSoundCache (begin_close (record { entries = es; closed = closed }))
unfolding begin_close
begin_close-IsSoundCache true es h = h
begin_close-IsSoundCache false es h = close-IsSound es h

happen-IsSoundCache : (event : Event) (c : Cache) → IsSoundCache c → IsSoundCache (happen event c)
unfolding happen
happen-IsSoundCache (acquires sha) c h = begin_acquire-IsSoundCache sha c.closed c.entries h
happen-IsSoundCache (compiles i success) c h =
    update-All (IsSound c.closed) (end_compile c.closed success) i c.entries
      (λ e s. (end_compile-Phase success s.0, end_compile-IsCounted c.closed success e s.1)) h
happen-IsSoundCache (settles i r) c h =
    update-All (IsSound c.closed) (settle r) i c.entries
      (λ e s. (settle-Phase r s.0, settle-IsCounted r e s.1)) h
happen-IsSoundCache (gives_up i r) c h =
    update-All (IsSound c.closed) (release r) i c.entries
      (λ e s. (release-Phase r s.0, release-IsCounted r e s.1)) h
happen-IsSoundCache (releases i r) c h =
    update-All (IsSound c.closed) (release r) i c.entries
      (λ e s. (release-Phase r s.0, release-IsCounted r e s.1)) h
happen-IsSoundCache shuts c h = begin_close-IsSoundCache c.closed c.entries h
happen-IsSoundCache (finishes i) c h =
    update-All (IsSound c.closed) finish_close i c.entries
      (λ e s. (finish_close-Phase s.0, finish_close-IsCounted e s.1)) h

happen_all-IsSoundCache :
    (events : List Event) (c : Cache) → IsSoundCache c → IsSoundCache (happen_all events c)
unfolding happen_all
happen_all-IsSoundCache [] c h = h
happen_all-IsSoundCache (event ∷ events) c h =
    happen_all-IsSoundCache events (happen event c) (happen-IsSoundCache event c h)

All-get_elem? :
    (P : Entry → Type 0) (es : List Entry) (i : ℕ) (e : Entry)
    → All P es
    → get_elem? es i ≡ some e
    → P e
All-get_elem? P [] i e h found = absurd (cc)
All-get_elem? P (x ∷ es) zero e h found = let same : x ≡ e = cc in subst P same h.0
All-get_elem? P (x ∷ es) (suc i) e h found = All-get_elem? P es i e h.1 found

entry-IsSound :
    (events : List Event) (i : ℕ) (e : Entry)
    → get_elem? (happen_all events new_cache).entries i ≡ some e
    → IsSound (happen_all events new_cache).closed e
entry-IsSound events i e found =
    let c = happen_all events new_cache in
    All-get_elem? (IsSound c.closed) c.entries i e (happen_all-IsSoundCache events new_cache tt)
      found

held_usable :
    {closed : Bool} {e : Entry} (r : ℕ)
    → Phase closed e
    → IsCounted e
    → closed ≡ false
    → get_or e.holders r false ≡ true
    → e.is_compiling ≡ false
    → e.has_error ≡ false
    → reference_compiled r e ≡ true
unfolding reference_compiled
held_usable r (compiling sha n hs c) counted shut held over fine = cc
held_usable r (ready sha n hs c) counted shut held over fine = rw held refl
held_usable r (failed _ sha n hs c) counted shut held over fine = cc
held_usable r (dropped _ sha hs c) counted shut held over fine =
    absurd (omega (arith, count-set_released r hs held))
held_usable r (awaited_compile sha n hs c) counted shut held over fine = cc
held_usable r (awaited_product sha n hs c) counted shut held over fine = cc
held_usable r (awaited_failure sha n hs c) counted shut held over fine = cc
held_usable r (finished sha n hs c) counted shut held over fine = cc

-- A reference keeps its product: whatever happened to the cache, as long as it is not closed, the
-- product of a compilation that ended without an error is there for every reference to it that was
-- not released.
pub reference_compiled_held :
    (events : List Event) (i r : ℕ) (e : Entry)
    → (happen_all events new_cache).closed ≡ false
    → get_elem? (happen_all events new_cache).entries i ≡ some e
    → get_or e.holders r false ≡ true
    → e.is_compiling ≡ false
    → e.has_error ≡ false
    → reference_compiled r e ≡ true
reference_compiled_held events i r e shut found held over fine =
    let (phase, counted) = entry-IsSound events i e found in
    held_usable r phase counted shut held over fine

-- An entry that nothing waits for any more: no reference is held, or the cache was closed and
-- `finishClose` has been there.
abbrev pub IsOver : Bool → Entry → Type 0
IsOver closed e =
    (e.is_compiling ≡ false)
    × (((closed ≡ false) × (count (λ held. held) e.holders ≡ 0))
        ⊎ ((closed ≡ true) × (e.awaited ≡ false)))

abbrev pub IsAccounted : Entry → Type 0
IsAccounted e = (e.made ≤ 1) × (e.closes + one_if e.compiled ≡ e.made)

accounted : {closed : Bool} {e : Entry} → Phase closed e → IsAccounted e
accounted (compiling sha n hs c) = (omega arith, refl)
accounted (ready sha n hs c) = (omega arith, refl)
accounted (failed _ sha n hs c) = (omega arith, refl)
accounted (dropped _ sha hs c) = (omega arith, refl)
accounted (awaited_compile sha n hs c) = (omega arith, refl)
accounted (awaited_product sha n hs c) = (omega arith, refl)
accounted (awaited_failure sha n hs c) = (omega arith, refl)
accounted (finished sha n hs c) = (omega arith, refl)

over-closed :
    {closed : Bool} {e : Entry}
    → Phase closed e
    → IsCounted e
    → IsOver closed e
    → e.compiled ≡ false
over-closed (compiling sha n hs c) counted over = cc
over-closed (ready sha n hs c) counted over = ground arith
over-closed (failed _ sha n hs c) counted over = refl
over-closed (dropped _ sha hs c) counted over = refl
over-closed (awaited_compile sha n hs c) counted over = cc
over-closed (awaited_product sha n hs c) counted over = ground arith
over-closed (awaited_failure sha n hs c) counted over = refl
over-closed (finished sha n hs c) counted over = refl

-- Whatever happened to the cache, an entry has at most one product, which is either still there or
-- was closed once: none is closed twice.
pub happen_all-IsAccounted :
    (events : List Event) (i : ℕ) (e : Entry)
    → get_elem? (happen_all events new_cache).entries i ≡ some e
    → IsAccounted e
happen_all-IsAccounted events i e found = accounted (entry-IsSound events i e found).0

-- No product is forgotten: whatever happened to the cache, the product of an entry was closed, as
-- often as there was one, once the compilation has ended and either no reference to it is held, or
-- the cache was closed and has got to it.
pub happen_all-closes :
    (events : List Event) (i : ℕ) (e : Entry)
    → get_elem? (happen_all events new_cache).entries i ≡ some e
    → IsOver (happen_all events new_cache).closed e
    → (e.compiled ≡ false) × (e.closes ≡ e.made)
happen_all-closes events i e found over =
    let (phase, counted) = entry-IsSound events i e found in
    let gone = over-closed phase counted over in
    let (_, all) = accounted phase in (gone, ground arith)
