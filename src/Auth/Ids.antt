-- ===== src/Auth/Ids.antt =====
-- The ids that an authorization change works on (cool-next/auth/perm.go): `NormalizeIDs`, and
-- `ValidateSnapshot`, `LockTable` and `LockUsersAndRevoke` that start from it. slices.Sort is an
-- insertion sort here: of numbers there is one ascending list.
pub mod Order
use cool_admin_go_next.Common.{
  ℕ, ◌==◌, Bool, true, false, not, List, [], ◌∷◌, filter, leb, if◌then◌else◌, ◌&&◌, Result, ok, err,
}
use cool_admin_go_next.Auth.Session.{Kind, AuthError, Checked}

unfoldable pub insert : ℕ → List ℕ → List ℕ
insert x [] = x ∷ []
insert x (y ∷ ys) = elim (leb x y) [ true ↦ x ∷ y ∷ ys | false ↦ y ∷ insert x ys ]

-- slices.Sort
unfoldable pub sort : List ℕ → List ℕ
unfolding insert
sort [] = []
sort (x ∷ xs) = insert x (sort xs)

-- slices.Compact: of equal neighbours, one.
unfoldable pub compact_from : ℕ → List ℕ → List ℕ
compact_from x [] = x ∷ []
compact_from x (y ∷ ys) = let rest = compact_from y ys in if x == y then rest else x ∷ rest

unfoldable pub compact : List ℕ → List ℕ
unfolding compact_from
compact [] = []
compact (x ∷ xs) = compact_from x xs

unfoldable pub normalize_ids : List ℕ → List ℕ
unfolding sort compact
normalize_ids ids = compact (sort (filter (λ id. not (id == 0)) ids))

-- slices.Equal
abbrev pub equal_ids : List ℕ → List ℕ → Bool
equal_ids [] [] = true
equal_ids (x ∷ xs) (y ∷ ys) = x == y && equal_ids xs ys
equal_ids _ _ = false

pub data ChangeError : Type 0 where
  changed missing_row lock_failed : ChangeError
  revoke_failed : AuthError → ChangeError

-- The snapshot of the ids is still the same before the commit.
unfoldable pub validate_snapshot_ids : List ℕ → List ℕ → Result ChangeError (Unit {0})
unfolding normalize_ids
validate_snapshot_ids before after =
    if equal_ids (normalize_ids before) (normalize_ids after) then ok tt else err changed

-- The rows that the database locked, or nothing when it failed.
abbrev pub locked_rows : List ℕ → Result ChangeError (List ℕ) → Result ChangeError (Unit {0})
locked_rows ids (err _) = err lock_failed
locked_rows ids (ok locked) = if equal_ids ids locked then ok tt else err missing_row

-- `lock_rows` is the database's: it locks the rows of the table with these ids.
abbrev pub lock_normal :
    (List ℕ → Result ChangeError (List ℕ)) → List ℕ → Result ChangeError (Unit {0})
lock_normal lock_rows [] = ok tt
lock_normal lock_rows (id ∷ ids) = locked_rows (id ∷ ids) (lock_rows (id ∷ ids))

unfoldable pub lock_table :
    (List ℕ → Result ChangeError (List ℕ)) → List ℕ → Result ChangeError (Unit {0})
unfolding normalize_ids
lock_table lock_rows ids = lock_normal lock_rows (normalize_ids ids)

module _ {S : Type 0} (revoke_users : Kind → List ℕ → S → Checked × S) where
  abbrev pub Change : Type 0
  Change = Result ChangeError (Unit {0}) × S

  abbrev pub users_revoked : Checked × S → Change
  users_revoked (ok _, s) = (ok tt, s)
  users_revoked (err e, s) = (err (revoke_failed e), s)

  abbrev pub revoke_normal : Kind → List ℕ → S → Change
  revoke_normal kind [] s = (ok tt, s)
  revoke_normal kind (id ∷ ids) s = users_revoked (revoke_users kind (id ∷ ids) s)

  -- RevokeUsers of the boundary, for rows that are locked already.
  unfoldable pub boundary_revoke_users : Kind → List ℕ → S → Change
  unfolding normalize_ids
  boundary_revoke_users kind ids s = revoke_normal kind (normalize_ids ids) s

  abbrev pub revoke_locked : Kind → List ℕ → Result ChangeError (Unit {0}) → S → Change
  revoke_locked kind ids (err e) s = (err e, s)
  revoke_locked kind ids (ok _) s = revoke_normal kind ids s

  unfoldable pub lock_users_and_revoke :
      (List ℕ → Result ChangeError (List ℕ)) → Kind → List ℕ → S → Change
  unfolding normalize_ids lock_table
  lock_users_and_revoke lock_rows kind ids s =
      let users = normalize_ids ids in revoke_locked kind users (lock_table lock_rows users) s
