-- ===== src/Common/Maps.antt =====
-- Maps from texts, as association lists: the values under a key, writing and deleting.
use Prim.Native.Nat.{suc, ◌≤◌, ◌<◌}
use mathlib.Core.Path.{◌≡◌, refl, ap, subst, ◌∙◌}
use mathlib.Core.Logic.{inl, inr}
use mathlib.Core.Bool.{Bool, true, false}
use mathlib.Core.Option.{Option, none, some}
use mathlib.Core.List.{List, [], ◌∷◌}
use native.Mathlib.Omega.{arith}
use cool_admin_go_next.Common.Tests.{if◌then◌else◌, Bool-cases}
use cool_admin_go_next.Common.Lists.{length}
use cool_admin_go_next.Common.Texts.{Text, text_eq, text_eq_iff, text_eq_refl}

abbrev pub Map {ℓ} : Type ℓ → Type ℓ
Map A = List (Text × A)

module _ {ℓ} {A : Type ℓ} where
  unfoldable pub lookup : Text → Map A → Option A
  lookup key [] = none
  lookup key ((k, v) ∷ m) = if text_eq k key then some v else lookup key m

  unfoldable pub erase : Text → Map A → Map A
  erase key [] = []
  erase key ((k, v) ∷ m) = elim (text_eq k key) [
    | true ↦ erase key m
    | false ↦ (k, v) ∷ erase key m
  ]

  unfoldable pub put : Text → A → Map A → Map A
  unfolding erase
  put key v m = (key, v) ∷ erase key m

  pub length-erase_le : (key : Text) (m : Map A) → length (erase key m) ≤ length m
  unfolding erase
  length-erase_le key [] = omega arith
  length-erase_le key ((k, v) ∷ m) = ground (arith, length-erase_le key m)

  pub length-put_le : (key : Text) (v : A) (m : Map A) → length (put key v m) ≤ suc (length m)
  unfolding put
  length-put_le key v m = omega (arith, length-erase_le key m)

  pub length-erase_lt :
      (key : Text) (v : A) (m : Map A) → lookup key m ≡ some v → length (erase key m) < length m
  unfolding erase lookup
  length-erase_lt key v [] h = absurd (cc)
  length-erase_lt key v ((k, w) ∷ m) h =
      ground (arith, length-erase_lt key v m, length-erase_le key m)

  pub length-put_known :
      (key : Text) (v w : A) (m : Map A) → lookup key m ≡ some v → length (put key w m) ≤ length m
  unfolding put
  length-put_known key v w m h = omega (arith, length-erase_lt key v m h)

  pub lookup-erase_same : (key : Text) (m : Map A) → lookup key (erase key m) ≡ none
  unfolding erase lookup
  lookup-erase_same key [] = refl
  lookup-erase_same key ((k, v) ∷ m) = ground (arith, lookup-erase_same key m)

  pub lookup-erase_other :
      (key other : Text) (m : Map A)
      → text_eq other key ≡ false
      → lookup key (erase other m) ≡ lookup key m
  unfolding erase lookup
  lookup-erase_other key other [] h = refl
  lookup-erase_other key other ((k, v) ∷ m) h = elim (Bool-cases (text_eq k other)) [
    | inl e ↦
        let same : k ≡ other = (text_eq_iff k other).0 e in
        let differs : text_eq k key ≡ false = rw same h in
        ground (arith, lookup-erase_other key other m h)
    | inr e ↦ ground (arith, lookup-erase_other key other m h)
  ]

  pub lookup-put_same : (key : Text) (v : A) (m : Map A) → lookup key (put key v m) ≡ some v
  unfolding put lookup
  lookup-put_same key v m = rw (text_eq_refl key)

  pub lookup-put_other :
      (key other : Text) (v : A) (m : Map A)
      → text_eq other key ≡ false
      → lookup key (put other v m) ≡ lookup key m
  unfolding put lookup
  lookup-put_other key other v m h = rw h (lookup-erase_other key other m h)

  -- Deleting only takes away.
  pub lookup-erase-none :
      (key other : Text) (m : Map A) → lookup key m ≡ none → lookup key (erase other m) ≡ none
  unfolding erase lookup
  lookup-erase-none key other [] h = refl
  lookup-erase-none key other ((k, v) ∷ m) h = ground (arith, lookup-erase-none key other m)

  -- The entries that a loop over the map does not delete.
  unfoldable pub keep : (A → Bool) → Map A → Map A
  keep p [] = []
  keep p ((k, v) ∷ m) = elim (p v) [ true ↦ (k, v) ∷ keep p m | false ↦ keep p m ]

  abbrev pub kept : (A → Bool) → Option A → Option A
  kept p none = none
  kept p (some v) = if p v then some v else none

  -- No key has two entries.
  abbrev pub HasKeys : Map A → Type ℓ
  HasKeys [] = Unit
  HasKeys ((k, v) ∷ m) = (lookup k m ≡ none) × HasKeys m

  pub HasKeys-erase : (key : Text) (m : Map A) → HasKeys m → HasKeys (erase key m)
  unfolding erase
  HasKeys-erase key [] h = h
  HasKeys-erase key ((k, v) ∷ m) h =
      ground (arith, HasKeys-erase key m h.1, lookup-erase-none k key m h.0)

  pub HasKeys-put : (key : Text) (v : A) (m : Map A) → HasKeys m → HasKeys (put key v m)
  unfolding put
  HasKeys-put key v m h = (lookup-erase_same key m, HasKeys-erase key m h)

  pub lookup-keep :
      (p : A → Bool) (key : Text) (m : Map A)
      → HasKeys m
      → lookup key (keep p m) ≡ kept p (lookup key m)
  unfolding keep lookup
  lookup-keep p key [] h = refl
  lookup-keep p key ((k, v) ∷ m) h = elim (Bool-cases (text_eq k key)) [
    | inl e ↦
        let same : k ≡ key = (text_eq_iff k key).0 e in
        let gone : lookup key m ≡ none = subst (λ t. lookup t m ≡ none) same h.0 in
        ground (arith, lookup-keep p key m h.1)
    | inr e ↦ ground (arith, lookup-keep p key m h.1)
  ]

  pub HasKeys-keep : (p : A → Bool) (m : Map A) → HasKeys m → HasKeys (keep p m)
  unfolding keep
  HasKeys-keep p [] h = h
  HasKeys-keep p ((k, v) ∷ m) h =
      let gone : lookup k (keep p m) ≡ none = lookup-keep p k m h.1 ∙ ap (kept p) h.0 in
      ground (arith, HasKeys-keep p m h.1, gone)

module _ {ℓ κ} {A : Type ℓ} (P : Text → A → Type κ) where
  -- Every entry of a map.
  abbrev pub Each : Map A → Type κ
  Each [] = Unit
  Each ((k, v) ∷ m) = P k v × Each m

  pub Each-keep : (p : A → Bool) (m : Map A) → Each m → Each (keep p m)
  unfolding keep
  Each-keep p [] h = h
  Each-keep p ((k, v) ∷ m) h = ground (arith, Each-keep p m h.1)

  pub Each-erase : (key : Text) (m : Map A) → Each m → Each (erase key m)
  unfolding erase
  Each-erase key [] h = h
  Each-erase key ((k, v) ∷ m) h = ground (arith, Each-erase key m h.1)

  pub Each-put : (key : Text) (v : A) (m : Map A) → P key v → Each m → Each (put key v m)
  unfolding put
  Each-put key v m hv h = (hv, Each-erase key m h)

  pub Each-lookup : (key : Text) (v : A) (m : Map A) → Each m → lookup key m ≡ some v → P key v
  unfolding lookup
  Each-lookup key v [] h e = absurd (cc)
  Each-lookup key v ((k, w) ∷ m) h e = elim (Bool-cases (text_eq k key)) [
    | inl same ↦
        let found : w ≡ v = ground arith in
        subst (λ t. P t v) ((text_eq_iff k key).0 same) (subst (P k) found h.0)
    | inr other ↦ let later : lookup key m ≡ some v = ground arith in Each-lookup key v m h.1 later
  ]

module _ {ℓ} {A : Type ℓ} where
  pub Each-kept : (p : A → Bool) (m : Map A) → Each (λ _ v. p v ≡ true) (keep p m)
  unfolding keep
  Each-kept p [] = tt
  Each-kept p ((k, v) ∷ m) = ground (arith, Each-kept p m)

  pub Each-erased : (key : Text) (m : Map A) → Each (λ k _. text_eq k key ≡ false) (erase key m)
  unfolding erase
  Each-erased key [] = tt
  Each-erased key ((k, v) ∷ m) = ground (arith, Each-erased key m)

pub Each-map {ℓ κ κ'} :
    {A : Type ℓ} (P : Text → A → Type κ) (Q : Text → A → Type κ')
    → ((k : Text) (v : A) → P k v → Q k v)
    → (m : Map A) → Each P m
    → Each Q m
Each-map P Q f [] h = tt
Each-map P Q f ((k, v) ∷ m) h = (f k v h.0, Each-map P Q f m h.1)
