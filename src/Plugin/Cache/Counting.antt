-- ===== src/Plugin/Cache/Counting.antt =====
-- The references of an entry are counted (cool-next/plugin/host/manager/cache.go).
use cool_admin_go_next.Common.{
  ℕ, zero, suc, Bool, true, false, not, List, [], ◌∷◌, ◌++◌, count, get_or, if◌then◌else◌, ◌||◌,
  ◌≡◌, refl, sym, ap, ◌∙◌, Bool-cases, inl, inr, arith,
}
use cool_admin_go_next.Plugin.Cache.{
  Entry, join_entry, complete_compile, release_held, set_released, release, settle, close_entry,
  finish_close,
}
use cool_admin_go_next.Plugin.Cache.Events.{end_compile}

-- References are counted by the flags of those that are held.
abbrev pub IsCounted : Entry → Type 0
IsCounted e = e.references ≡ count (λ held. held) e.holders

pub count-set_released :
    (i : ℕ) (hs : List Bool)
    → get_or hs i false ≡ true
    → count (λ held. held) hs ≡ suc (count (λ held. held) (set_released i hs))
count-set_released i [] h = absurd (cc)
count-set_released zero (b ∷ hs) h = ground arith
count-set_released (suc i) (b ∷ hs) h = ground (arith, count-set_released i hs h)

count-join :
    (hs : List Bool) → count (λ held. held) (hs ++ true ∷ []) ≡ suc (count (λ held. held) hs)
count-join [] = refl
count-join (b ∷ hs) = ground (arith, count-join hs)

release_held-counted :
    (e : Entry) (n : ℕ)
    → e.references ≡ suc n
    → ((release_held e).references ≡ n) × ((release_held e).holders ≡ e.holders)
release_held-counted e n h = ground arith

pub release-IsCounted : (i : ℕ) (e : Entry) → IsCounted e → IsCounted (release i e)
unfolding release
release-IsCounted i e h = elim (Bool-cases (get_or e.holders i false)) [
  | inr gone ↦ rw gone h
  | inl held ↦
      let less = count-set_released i e.holders held in
      let after = record e { holders = set_released i e.holders } in
      let (n, same) =
        release_held-counted after (count (λ held. held) (set_released i e.holders)) (h ∙ less) in
      rw held (n ∙ ap (count (λ held. held)) (sym same))
]

either-IsCounted :
    (b : Bool) (x y : Entry) → IsCounted x → IsCounted y → IsCounted (if b then x else y)
either-IsCounted true x y hx hy = hx
either-IsCounted false x y hx hy = hy

pub settle-IsCounted : (i : ℕ) (e : Entry) → IsCounted e → IsCounted (settle i e)
settle-IsCounted i e h = either-IsCounted e.is_compiling e _ h (
    either-IsCounted (e.has_error || e.is_closed || not e.compiled) (release i e) e
      (release-IsCounted i e h) h)

pub end_compile-IsCounted :
    (closed success : Bool) (e : Entry) → IsCounted e → IsCounted (end_compile closed success e)
unfolding complete_compile
end_compile-IsCounted closed success e h = ground arith

pub close_entry-IsCounted : (e : Entry) → IsCounted e → IsCounted (close_entry e)
unfolding close_entry
close_entry-IsCounted e h = ground arith

pub finish_close-IsCounted : (e : Entry) → IsCounted e → IsCounted (finish_close e)
unfolding finish_close
finish_close-IsCounted e h = ground arith

pub join_entry-IsCounted : (e : Entry) → IsCounted e → IsCounted (join_entry e)
join_entry-IsCounted e h = ap suc h ∙ sym (count-join e.holders)
