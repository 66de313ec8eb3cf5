-- ===== src/Plugin/Cache/Phases.antt =====
-- The phases of an entry of the compile cache (cool-next/plugin/host/manager/cache.go).
use cool_admin_go_next.Common.{
  ℕ, zero, suc, ◌==◌, Bool, true, false, List, [], ◌∷◌, ◌++◌, Text, get_or, ◌≡◌, Bool-cases, inl,
  inr, arith,
}
use cool_admin_go_next.Plugin.Cache.{
  Entry, join_entry, complete_compile, release_held, set_released, release, settle, close_entry,
  finish_close,
}
use cool_admin_go_next.Plugin.Cache.Events.{end_compile}

-- The flags of an entry: which ones stand together.
abbrev entry_of :
    Text
    → ℕ
    → List Bool
    → (compiled has_error is_compiling is_closed cancelled in_map awaited : Bool) → ℕ
    → ℕ
    → Entry
entry_of sha n hs compiled has_error is_compiling is_closed cancelled in_map awaited made closes =
    record {
      sha = sha;
      compiled = compiled;
      has_error = has_error;
      references = n;
      is_compiling = is_compiling;
      is_closed = is_closed;
      cancelled = cancelled;
      in_map = in_map;
      awaited = awaited;
      holders = hs;
      made = made;
      closes = closes;
    }

pub data Phase : Bool → Entry → Type 0 where
  compiling :
      (sha : Text) (n : ℕ) (hs : List Bool) (c : Bool)
      → Phase false (entry_of sha n hs false false true false c true false 0 0)
  ready :
      (sha : Text) (n : ℕ) (hs : List Bool) (c : Bool)
      → Phase false (entry_of sha (suc n) hs true false false false c true false 1 0)
  failed :
      (closed : Bool) (sha : Text) (n : ℕ) (hs : List Bool) (c : Bool)
      → Phase closed (entry_of sha n hs false true false true c false false 0 0)
  dropped :
      (closed : Bool) (sha : Text) (hs : List Bool) (c : Bool)
      → Phase closed (entry_of sha 0 hs false false false true c false false 1 1)
  awaited_compile :
      (sha : Text) (n : ℕ) (hs : List Bool) (c : Bool)
      → Phase true (entry_of sha n hs false false true true c false true 0 0)
  awaited_product :
      (sha : Text) (n : ℕ) (hs : List Bool) (c : Bool)
      → Phase true (entry_of sha n hs true false false true c false true 1 0)
  awaited_failure :
      (sha : Text) (n : ℕ) (hs : List Bool) (c : Bool)
      → Phase true (entry_of sha n hs false true false true c false true 0 0)
  finished :
      (sha : Text) (n : ℕ) (hs : List Bool) (c : Bool)
      → Phase true (entry_of sha n hs false false false true c false false 1 1)

not_zero : (n : ℕ) → (suc n == 0) ≡ false
not_zero n = ground arith

pub end_compile-Phase :
    {closed : Bool} {e : Entry} (success : Bool)
    → Phase closed e
    → Phase closed (end_compile closed success e)
unfolding complete_compile
end_compile-Phase true (compiling sha zero hs c) = dropped false sha hs true
end_compile-Phase true (compiling sha (suc n) hs c) = rw (not_zero n) (ready sha n hs true)
end_compile-Phase false (compiling sha n hs c) = failed false sha n hs true
end_compile-Phase success (ready sha n hs c) = ready sha n hs c
end_compile-Phase success (failed closed sha n hs c) = failed closed sha n hs c
end_compile-Phase success (dropped closed sha hs c) = dropped closed sha hs c
end_compile-Phase true (awaited_compile sha n hs c) = awaited_product sha n hs true
end_compile-Phase false (awaited_compile sha n hs c) = awaited_failure sha n hs true
end_compile-Phase success (awaited_product sha n hs c) = awaited_product sha n hs c
end_compile-Phase success (awaited_failure sha n hs c) = awaited_failure sha n hs c
end_compile-Phase success (finished sha n hs c) = finished sha n hs c

-- One reference less, whichever is released.
release_held-Phase :
    {closed : Bool} {e : Entry} (hs : List Bool)
    → Phase closed e
    → Phase closed (release_held (record e { holders = hs }))
release_held-Phase hs (compiling sha zero _ c) = compiling sha zero hs c
release_held-Phase hs (compiling sha (suc zero) _ c) = compiling sha zero hs true
release_held-Phase hs (compiling sha (suc (suc n)) _ c) =
    rw (not_zero n) (compiling sha (suc n) hs c)
release_held-Phase hs (ready sha zero _ c) = dropped false sha hs c
release_held-Phase hs (ready sha (suc n) _ c) = rw (not_zero n) (ready sha n hs c)
release_held-Phase hs (failed closed sha zero _ c) = failed closed sha zero hs c
release_held-Phase hs (failed closed sha (suc zero) _ c) = failed closed sha zero hs c
release_held-Phase hs (failed closed sha (suc (suc n)) _ c) =
    rw (not_zero n) (failed closed sha (suc n) hs c)
release_held-Phase hs (dropped closed sha _ c) = dropped closed sha hs c
release_held-Phase hs (awaited_compile sha zero _ c) = awaited_compile sha zero hs c
release_held-Phase hs (awaited_compile sha (suc zero) _ c) = awaited_compile sha zero hs true
release_held-Phase hs (awaited_compile sha (suc (suc n)) _ c) =
    rw (not_zero n) (awaited_compile sha (suc n) hs c)
release_held-Phase hs (awaited_product sha zero _ c) = awaited_product sha zero hs c
release_held-Phase hs (awaited_product sha (suc zero) _ c) = awaited_product sha zero hs c
release_held-Phase hs (awaited_product sha (suc (suc n)) _ c) =
    rw (not_zero n) (awaited_product sha (suc n) hs c)
release_held-Phase hs (awaited_failure sha zero _ c) = awaited_failure sha zero hs c
release_held-Phase hs (awaited_failure sha (suc zero) _ c) = awaited_failure sha zero hs c
release_held-Phase hs (awaited_failure sha (suc (suc n)) _ c) =
    rw (not_zero n) (awaited_failure sha (suc n) hs c)
release_held-Phase hs (finished sha zero _ c) = finished sha zero hs c
release_held-Phase hs (finished sha (suc zero) _ c) = finished sha zero hs c
release_held-Phase hs (finished sha (suc (suc n)) _ c) = rw (not_zero n) (finished sha (suc n) hs c)

pub release-Phase :
    {closed : Bool} {e : Entry} (i : ℕ) → Phase closed e → Phase closed (release i e)
unfolding release
release-Phase {e} i p = elim (Bool-cases (get_or e.holders i false)) [
  | inl held ↦ rw held (release_held-Phase (set_released i e.holders) p)
  | inr gone ↦ rw gone p
]

pub settle-Phase : {closed : Bool} {e : Entry} (i : ℕ) → Phase closed e → Phase closed (settle i e)
settle-Phase i (compiling sha n hs c) = compiling sha n hs c
settle-Phase i (ready sha n hs c) = ready sha n hs c
settle-Phase i (failed closed sha n hs c) = release-Phase i (failed closed sha n hs c)
settle-Phase i (dropped closed sha hs c) = release-Phase i (dropped closed sha hs c)
settle-Phase i (awaited_compile sha n hs c) = awaited_compile sha n hs c
settle-Phase i (awaited_product sha n hs c) = release-Phase i (awaited_product sha n hs c)
settle-Phase i (awaited_failure sha n hs c) = release-Phase i (awaited_failure sha n hs c)
settle-Phase i (finished sha n hs c) = release-Phase i (finished sha n hs c)

pub close_entry-Phase : {e : Entry} → Phase false e → Phase true (close_entry e)
unfolding close_entry
close_entry-Phase (compiling sha n hs c) = awaited_compile sha n hs true
close_entry-Phase (ready sha n hs c) = awaited_product sha (suc n) hs true
close_entry-Phase (failed _ sha n hs c) = failed true sha n hs c
close_entry-Phase (dropped _ sha hs c) = dropped true sha hs c

pub finish_close-Phase :
    {closed : Bool} {e : Entry} → Phase closed e → Phase closed (finish_close e)
unfolding finish_close
finish_close-Phase (compiling sha n hs c) = compiling sha n hs c
finish_close-Phase (ready sha n hs c) = ready sha n hs c
finish_close-Phase (failed closed sha n hs c) = failed closed sha n hs c
finish_close-Phase (dropped closed sha hs c) = dropped closed sha hs c
finish_close-Phase (awaited_compile sha n hs c) = awaited_compile sha n hs c
finish_close-Phase (awaited_product sha n hs c) = finished sha n hs c
finish_close-Phase (awaited_failure sha n hs c) = failed true sha n hs c
finish_close-Phase (finished sha n hs c) = finished sha n hs c

pub join_entry-Phase : {e : Entry} → Phase false e → e.in_map ≡ true → Phase false (join_entry e)
join_entry-Phase (compiling sha n hs c) h = compiling sha (suc n) (hs ++ true ∷ []) c
join_entry-Phase (ready sha n hs c) h = ready sha (suc n) (hs ++ true ∷ []) c
join_entry-Phase (failed _ sha n hs c) h = absurd (cc)
join_entry-Phase (dropped _ sha hs c) h = absurd (cc)
