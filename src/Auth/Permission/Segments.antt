-- ===== src/Auth/Permission/Segments.antt =====
-- What a derived permission says of its route (cool-next/auth/perm.go).
use cool_admin_go_next.Common.{
  ℕ, ◌==◌, Bool, true, false, not, List, [], ◌∷◌, ◌++◌, Text, text_eq, has_prefix, split, join,
  is_empty_text, all, if◌then◌else◌, ◌||◌, Result, ok, err, ◌≡◌, ◌≢◌, refl, subst, ap, ◌∙◌, All,
  Bool-cases, inl, inr, arith, &&_left, &&_right, ==_refl,
}
use cool_admin_go_next.Auth.Permission.{
  PermissionError, no_permission, invalid_segment, admin_path_prefix, admin_dict_data_path,
  is_letter, is_segment_char, valid_segment, has_comm, permission_of, remainder, derive_permission,
}

-- A text without the character.
abbrev Lacks : ℕ → Text → Type 0
Lacks x s = All (λ c. (c == x) ≡ false) s

split-Lacks : (x : ℕ) (s : Text) → Lacks x s → split x s ≡ s ∷ []
unfolding split
split-Lacks x [] h = refl
split-Lacks x (c ∷ s) h = rw (h.0, split-Lacks x s h.1) refl

split-append : (x : ℕ) (s t : Text) → Lacks x s → split x (s ++ x ∷ t) ≡ s ∷ split x t
unfolding split
split-append x [] t h = rw (==_refl x) refl
split-append x (c ∷ s) t h = rw (h.0, split-append x s t h.1) refl

-- Pieces that lack the separator are found again in what is joined of them.
split-join :
    (x : ℕ) (piece : Text) (pieces : List Text)
    → All (Lacks x) (piece ∷ pieces)
    → split x (join x (piece ∷ pieces)) ≡ piece ∷ pieces
unfolding join
split-join x piece [] h = split-Lacks x piece h.0
split-join x piece (next ∷ pieces) h =
    split-append x piece (join x (next ∷ pieces)) h.0
    ∙ ap (λ ps. piece ∷ ps) (split-join x next pieces h.1)

segment_char-lacks : (c : ℕ) → is_segment_char c ≡ true → (c == b':') ≡ false
segment_char-lacks c h = ground arith

segment-Lacks : (s : Text) → all is_segment_char s ≡ true → Lacks b':' s
segment-Lacks [] h = tt
segment-Lacks (c ∷ s) h =
    (segment_char-lacks c (&&_left _ _ h), segment-Lacks s (&&_right (is_segment_char c) _ h))

letter-lacks : (c : ℕ) → is_letter c ≡ true → (c == b':') ≡ false
letter-lacks c h = ground arith

valid_segment-Lacks : (s : Text) → valid_segment s ≡ true → Lacks b':' s
unfolding valid_segment
valid_segment-Lacks [] h = tt
valid_segment-Lacks (c ∷ s) h =
    let letter = &&_left _ (all is_segment_char s) h in
    (letter-lacks c letter, segment-Lacks s (&&_right (is_letter c) _ h))

segments-lack : (ps : List Text) → all valid_segment ps ≡ true → All (Lacks b':') ps
segments-lack [] h = tt
segments-lack (p ∷ ps) h =
    (valid_segment-Lacks p (&&_left _ _ h), segments-lack ps (&&_right (valid_segment p) _ h))

split-pieces :
    (x : ℕ) (s : Text) → (piece : Text) × (pieces : List Text) × (split x s ≡ piece ∷ pieces)
unfolding split
split-pieces x [] = ([], [], refl)
split-pieces x (c ∷ s) = elim (Bool-cases (c == x)) [
  | inl e ↦ ([], split x s, rw e refl)
  | inr e ↦ let (piece, pieces, same) = split-pieces x s in (c ∷ piece, pieces, rw (e, same) refl)
]

permission_of-split :
    (x : ℕ) (s permission : Text)
    → permission_of (split x s) ≡ ok permission
    → permission ≢ []
    → (all valid_segment (split x s) ≡ true) × (split b':' permission ≡ split x s)
permission_of-split x s permission h named = elim (Bool-cases (has_comm (split x s))) [
  | inl comm ↦
      let none : ◌≡◌ {A = Result PermissionError Text} (ok []) (ok permission) = rw comm at h in
      let empty : permission ≡ [] = cc in absurd (named empty)
  | inr plain ↦ elim (Bool-cases (all valid_segment (split x s))) [
    | inr bad ↦
        let refused : ◌≡◌ {A = Result PermissionError Text} (err invalid_segment) (ok permission) =
          rw (plain, bad) at h in
        absurd (cc)
    | inl good ↦
        let joined : ◌≡◌ {A = Result PermissionError Text} (ok (join b':' (split x s)))
            (ok permission) =
          rw (plain, good) at h in
        let same : join b':' (split x s) ≡ permission = cc in
        let (piece, pieces, cut) = split-pieces x s in
        let lack = segments-lack (split x s) good in
        (good, rw (← same, cut) (split-join b':' piece pieces (subst (All (Lacks b':')) cut lack)))
  ]
]

gates :
    (ignored admin dict empty : Bool) (r : Result PermissionError Text) (permission : Text)
    → (if ignored || not admin
        then ok []
        else if dict
        then ok []
        else if empty
        then err no_permission
        else r)
      ≡ ok permission
    → permission ≢ []
    → (ignored ≡ false) × (admin ≡ true) × (r ≡ ok permission)
gates true admin dict empty r permission h named =
    let none : permission ≡ [] = cc in absurd (named none)
gates false false dict empty r permission h named =
    let none : permission ≡ [] = cc in absurd (named none)
gates false true true empty r permission h named =
    let none : permission ≡ [] = cc in absurd (named none)
gates false true false true r permission h named = absurd (cc)
gates false true false false r permission h named = (refl, refl, h)

-- A permission that is derived and not empty belongs to an admin route whose token is looked at, and
-- its pieces between the colons are the segments of the route's path after the prefix, each of them
-- a valid one: routes with other segments have other permissions.
pub derive_permission-split :
    (full_path permission : Text) (ignore_token : Bool)
    → derive_permission full_path ignore_token ≡ ok permission
    → permission ≢ []
    → (ignore_token ≡ false)
      × (has_prefix full_path admin_path_prefix ≡ true)
      × (all valid_segment (split b'/' (remainder full_path)) ≡ true)
      × (split b':' permission ≡ split b'/' (remainder full_path))
unfolding derive_permission
derive_permission-split full_path permission ignore_token h named =
    let (used, admin, derived) =
      gates ignore_token (has_prefix full_path admin_path_prefix)
        (text_eq full_path admin_dict_data_path) (is_empty_text (remainder full_path))
        (permission_of (split b'/' (remainder full_path))) permission h named in
    let (good, same) = permission_of-split b'/' (remainder full_path) permission derived named in
    (used, admin, good, same)
