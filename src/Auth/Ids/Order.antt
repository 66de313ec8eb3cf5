-- ===== src/Auth/Ids/Order.antt =====
-- What `NormalizeIDs` returns (cool-next/auth/perm.go): the one ascending list of the ids.
use cool_admin_go_next.Common.{
  ℕ, ◌≤◌, ◌<◌, ◌==◌, Bool, true, false, not, List, [], ◌∷◌, filter, if◌then◌else◌, ◌&&◌, ◌||◌, ◌≡◌,
  ◌≢◌, ◌↔◌, refl, sym, ap, ◌∙◌, zero, suc, Result, ok, err, &&_left, &&_right, All, arith, ==_refl,
  ==_iff,
}
use mathlib.Core.Path.{ap₂}
use cool_admin_go_next.Auth.Store.{contains}
use cool_admin_go_next.Auth.Ids.{
  insert, sort, compact_from, compact, normalize_ids, equal_ids, ChangeError, changed,
  validate_snapshot_ids,
}

abbrev pub IsSorted : List ℕ → Type 0
IsSorted [] = Unit
IsSorted (x ∷ xs) = All (λ y. x ≤ y) xs × IsSorted xs

abbrev pub IsAscending : List ℕ → Type 0
IsAscending [] = Unit
IsAscending (x ∷ xs) = All (λ y. x < y) xs × IsAscending xs

All-le : (x y : ℕ) (zs : List ℕ) → x ≤ y → All (λ z. y ≤ z) zs → All (λ z. x ≤ z) zs
All-le x y [] h all = tt
All-le x y (z ∷ zs) h all = (omega arith, All-le x y zs h all.1)

All-insert : (b x : ℕ) (ys : List ℕ) → b ≤ x → All (λ z. b ≤ z) ys → All (λ z. b ≤ z) (insert x ys)
unfolding insert
All-insert b x [] h all = (h, tt)
All-insert b x (y ∷ ys) h all = ground (arith, All-insert b x ys h all.1)

insert-IsSorted : (x : ℕ) (ys : List ℕ) → IsSorted ys → IsSorted (insert x ys)
unfolding insert
insert-IsSorted x [] h = (tt, tt)
insert-IsSorted x (y ∷ ys) h = ground (
  arith,
  λ (p : x ≤ y). All-le x y ys p h.0,
  λ (p : y ≤ x). All-insert y x ys p h.0,
  insert-IsSorted x ys h.1,
)

sort-IsSorted : (xs : List ℕ) → IsSorted (sort xs)
unfolding sort
sort-IsSorted [] = tt
sort-IsSorted (x ∷ xs) = insert-IsSorted x (sort xs) (sort-IsSorted xs)

contains-insert : (x id : ℕ) (ys : List ℕ) → contains (insert x ys) id ≡ (x == id || contains ys id)
unfolding insert
contains-insert x id [] = refl
contains-insert x id (y ∷ ys) = ground (arith, contains-insert x id ys)

contains-sort : (id : ℕ) (xs : List ℕ) → contains (sort xs) id ≡ contains xs id
unfolding sort
contains-sort id [] = refl
contains-sort id (x ∷ xs) = ground (arith, contains-insert x id (sort xs), contains-sort id xs)

contains-compact_from :
    (id x : ℕ) (xs : List ℕ) → contains (compact_from x xs) id ≡ contains (x ∷ xs) id
unfolding compact_from
contains-compact_from id x [] = refl
contains-compact_from id x (y ∷ ys) = ground (arith, contains-compact_from id y ys)

contains-filter :
    (id : ℕ) (xs : List ℕ)
    → contains (filter (λ i. not (i == 0)) xs) id ≡ (not (id == 0) && contains xs id)
contains-filter id [] = ground arith
contains-filter id (x ∷ xs) = ground (arith, contains-filter id xs)

All-lt : (x y : ℕ) (zs : List ℕ) → x < y → All (λ z. y < z) zs → All (λ z. x < z) zs
All-lt x y [] h all = tt
All-lt x y (z ∷ zs) h all = (omega arith, All-lt x y zs h all.1)

-- Everything of a sorted list is above what is below its head, and so is what is compacted of it.
All-compact_from :
    (b x : ℕ) (xs : List ℕ) → b < x → IsSorted (x ∷ xs) → All (λ z. b < z) (compact_from x xs)
unfolding compact_from
All-compact_from b x [] h s = (h, tt)
All-compact_from b x (y ∷ ys) h s = ground (arith, λ (p : b < y). All-compact_from b y ys p s.1)

compact_from-IsAscending :
    (x : ℕ) (xs : List ℕ) → IsSorted (x ∷ xs) → IsAscending (compact_from x xs)
unfolding compact_from
compact_from-IsAscending x [] s = (tt, tt)
compact_from-IsAscending x (y ∷ ys) s =
    ground (arith, compact_from-IsAscending y ys s.1, λ (p : x < y). All-compact_from x y ys p s.1)

compact-IsAscending : (xs : List ℕ) → IsSorted xs → IsAscending (compact xs)
unfolding compact
compact-IsAscending [] s = tt
compact-IsAscending (x ∷ xs) s = compact_from-IsAscending x xs s

contains-compact : (id : ℕ) (xs : List ℕ) → contains (compact xs) id ≡ contains xs id
unfolding compact
contains-compact id [] = refl
contains-compact id (x ∷ xs) = contains-compact_from id x xs

pub normalize_ids-IsAscending : (ids : List ℕ) → IsAscending (normalize_ids ids)
unfolding normalize_ids
normalize_ids-IsAscending ids =
    let nonzero = filter (λ id. not (id == 0)) ids in
    compact-IsAscending (sort nonzero) (sort-IsSorted nonzero)

pub contains-normalize_ids :
    (ids : List ℕ) (id : ℕ) → contains (normalize_ids ids) id ≡ (not (id == 0) && contains ids id)
unfolding normalize_ids
contains-normalize_ids ids id =
    let nonzero = filter (λ i. not (i == 0)) ids in
    contains-compact id (sort nonzero) ∙ contains-sort id nonzero ∙ contains-filter id ids

above_not_contained : (x : ℕ) (ys : List ℕ) → All (λ y. x < y) ys → contains ys x ≡ false
above_not_contained x [] h = refl
above_not_contained x (y ∷ ys) h = ground (arith, above_not_contained x ys h.1)

abbrev pub SameIds : List ℕ → List ℕ → Type 0
SameIds xs ys = (id : ℕ) → contains xs id ≡ contains ys id

heads_equal :
    (x y : ℕ) (xs ys : List ℕ)
    → IsAscending (x ∷ xs)
    → IsAscending (y ∷ ys)
    → SameIds (x ∷ xs) (y ∷ ys)
    → x ≤ y
heads_equal x y xs ys a b same =
    ground (arith, same y, λ (p : y < x). above_not_contained y xs (All-lt y x xs p a.0))

tails_same :
    (x y : ℕ) (xs ys : List ℕ)
    → x ≡ y
    → IsAscending (x ∷ xs)
    → IsAscending (y ∷ ys)
    → SameIds (x ∷ xs) (y ∷ ys)
    → SameIds xs ys
tails_same x y xs ys e a b same id =
    let here = above_not_contained x xs a.0 in
    let there = above_not_contained y ys b.0 in ground (arith, same id)

nonzero_same :
    (id : ℕ) (xs ys : List ℕ)
    → (id ≢ 0 → contains xs id ≡ contains ys id)
    → (not (id == 0) && contains xs id) ≡ (not (id == 0) && contains ys id)
nonzero_same zero xs ys h = refl
nonzero_same (suc id) xs ys h = rw (h (omega arith)) refl

-- An ascending list is determined by its members.
IsAscending-unique : (xs ys : List ℕ) → IsAscending xs → IsAscending ys → SameIds xs ys → xs ≡ ys
IsAscending-unique [] [] a b same = refl
IsAscending-unique [] (y ∷ ys) a b same = ground (arith, same y)
IsAscending-unique (x ∷ xs) [] a b same = ground (arith, same x)
IsAscending-unique (x ∷ xs) (y ∷ ys) a b same =
    let up = heads_equal x y xs ys a b same in
    let down = heads_equal y x ys xs b a (λ id. sym (same id)) in
    let head : x ≡ y = omega arith in
    ap₂ ◌∷◌ head (IsAscending-unique xs ys a.1 b.1 (tails_same x y xs ys head a b same))

equal_ids-same : (xs ys : List ℕ) → equal_ids xs ys ≡ true → xs ≡ ys
equal_ids-same [] [] h = refl
equal_ids-same [] (y ∷ ys) h = cc
equal_ids-same (x ∷ xs) [] h = cc
equal_ids-same (x ∷ xs) (y ∷ ys) h =
    ap₂ ◌∷◌ ((==_iff x y).0 (&&_left _ _ h)) (equal_ids-same xs ys (&&_right (x == y) _ h))

equal_ids_refl : (xs : List ℕ) → equal_ids xs xs ≡ true
equal_ids_refl [] = refl
equal_ids_refl (x ∷ xs) = rw (==_refl x) (equal_ids_refl xs)

-- The normal ids are ascending, each once, no zero, and otherwise the ids that were given; and two
-- lists of the same ids, in any order, with any repetitions and zeros, have one normal list.
pub normalize_ids-normal :
    (ids others : List ℕ)
    → ((id : ℕ) → id ≢ 0 → contains ids id ≡ contains others id)
    → IsAscending (normalize_ids ids)
      × ((id : ℕ) → contains (normalize_ids ids) id ≡ (not (id == 0) && contains ids id))
      × (normalize_ids ids ≡ normalize_ids others)
normalize_ids-normal ids others same = (
  normalize_ids-IsAscending ids,
  contains-normalize_ids ids,
  IsAscending-unique (normalize_ids ids) (normalize_ids others) (normalize_ids-IsAscending ids)
      (normalize_ids-IsAscending others)
      (λ id.
        contains-normalize_ids ids id
        ∙ nonzero_same id ids others (same id)
        ∙ sym (contains-normalize_ids others id)),
)

nonzero_part : (id : ℕ) (b : Bool) → id ≢ 0 → (not (id == 0) && b) ≡ b
nonzero_part zero b h = absurd (h refl)
nonzero_part (suc id) b h = ground arith

equal_when :
    (b : Bool)
    → ◌≡◌ {A = Result ChangeError (Unit {0})} (if b then ok tt else err changed) (ok tt)
    → b ≡ true
equal_when true h = refl
equal_when false h = cc

-- A change is let through before its commit exactly if the ids are still the same ones, in any
-- order, with any repetitions and zeros.
pub validate_snapshot_ids-same :
    (before after : List ℕ)
    → (validate_snapshot_ids before after ≡ ok tt)
      ↔ ((id : ℕ) → id ≢ 0 → contains before id ≡ contains after id)
unfolding validate_snapshot_ids
validate_snapshot_ids-same before after = (
  λ h id nonzero.
      let normal = equal_ids-same (normalize_ids before) (normalize_ids after) (equal_when _ h) in
      sym (nonzero_part id (contains before id) nonzero)
      ∙ sym (contains-normalize_ids before id)
      ∙ ap (λ ids. contains ids id) normal
      ∙ contains-normalize_ids after id
      ∙ nonzero_part id (contains after id) nonzero,
  λ same.
      rw ((normalize_ids-normal before after same).2, equal_ids_refl (normalize_ids after)) refl,
)
