-- ===== src/Auth/Store/Revocation.antt =====
-- Revoked sessions do not come back by themselves (cool-next/auth/store.go).
use cool_admin_go_next.Common.{
  ℕ, false, not, List, [], ◌∷◌, Text, text_eq, text_eq_iff, text_eq_refl, none, some, lookup, erase,
  ◌≡◌, ◌≢◌, refl, subst, ok, err, ◌>>◌, ==_iff, &&_left, &&_right, ok-right, All, Each, Each-kept,
  Each-erased, Each-lookup, Each-map, Option-cases, inl, inr, arith,
}
use cool_admin_go_next.Auth.Session.{
  Kind, Snapshot, Checked, Context, context_error, require-holds, not_found, other_identity,
}
use cool_admin_go_next.Auth.Store.{
  Sessions, cleanup_expired, check_get, get, check_rotate, rotate_refresh, rotate_within, revoke,
  revoke_users, rotation, guarded, is_target, same_identity, revoke_user_set, revoke_targets,
  delete_users,
}
use cool_admin_go_next.Auth.Store.Requests.{
  Request, reads, saves, rotates, revokes, bans, perform_all,
}
use cool_admin_go_next.Auth.Store.Keeping.{Permits, perform_all-keeps, cleanup_expired-keeps}
use cool_admin_go_next.Auth.Store.Sound.{get-stored}

module _ (subject : Kind) (user_ids : List ℕ) where
  -- A session of no such user.
  abbrev pub IsSpared : Text → Snapshot → Type 0
  IsSpared _ value = is_target subject user_ids value ≡ false

  -- No new session of such a user.
  abbrev pub SavesSpared : Request → Type 0
  SavesSpared (saves ctx value checked now) = is_target subject user_ids value ≡ false
  SavesSpared _ = Unit

  -- A rotation keeps the identity of the session that it finds.
  rotation-spared :
      (expected : Text) (next current : Snapshot)
      → rotation expected next (some current) ≡ ok tt
      → is_target subject user_ids current ≡ false
      → is_target subject user_ids next ≡ false
  unfolding rotation
  rotation-spared expected next current h spared =
      let same = require-holds (same_identity current next) other_identity (ok-right _ _ h) in
      let kind : current.principal.subject ≡ next.principal.subject =
        (text_eq_iff _ _).0 (&&_left _ _ same) in
      let user : current.principal.user_id ≡ next.principal.user_id =
        (==_iff _ _).0 (&&_right _ _ same) in
      rw (← kind, ← user) spared

  Permits-IsSpared : (rs : List Request) → All SavesSpared rs → All (Permits IsSpared) rs
  Permits-IsSpared [] h = tt
  Permits-IsSpared (reads _ _ _ ∷ rs) h = (tt, Permits-IsSpared rs h.1)
  Permits-IsSpared (saves _ _ _ _ ∷ rs) h = (λ _. h.0, Permits-IsSpared rs h.1)
  Permits-IsSpared (rotates _ _ expected next _ _ ∷ rs) h =
      (λ current _. rotation-spared expected next current, Permits-IsSpared rs h.1)
  Permits-IsSpared (revokes _ _ ∷ rs) h = (tt, Permits-IsSpared rs h.1)
  Permits-IsSpared (bans _ _ _ _ ∷ rs) h = (tt, Permits-IsSpared rs h.1)

  delete_users-IsSpared :
      (now : ℕ) (m : Sessions) → Each IsSpared (delete_users subject user_ids now m)
  delete_users-IsSpared now m =
      Each-map _ IsSpared (λ _ value h. ground arith) _
        (Each-kept (λ value. not (is_target subject user_ids value)) (cleanup_expired now m))

none_is_target : (subject : Kind) (m : Sessions) → Each (IsSpared subject []) m
none_is_target subject [] = tt
none_is_target subject ((k, v) ∷ m) = (ground arith, none_is_target subject m)

revoke_targets-IsSpared :
    (subject : Kind) (user_ids : List ℕ) (now : ℕ) (m : Sessions)
    → Each (IsSpared subject user_ids) (revoke_targets subject now (ok user_ids) m).1
revoke_targets-IsSpared subject [] now m = none_is_target subject m
revoke_targets-IsSpared subject (id ∷ ids) now m = delete_users-IsSpared subject (id ∷ ids) now m

revoked-IsSpared :
    (subject : Kind) (user_ids : List ℕ) (now : ℕ) (m : Sessions) (started fits : Checked)
    → (guarded started (revoke_targets subject now (fits >> ok user_ids)) m).0 ≡ ok tt
    → Each
        (IsSpared subject user_ids)
        (guarded started (revoke_targets subject now (fits >> ok user_ids)) m).1
revoked-IsSpared subject user_ids now m (err _) fits h = absurd (cc)
revoked-IsSpared subject user_ids now m (ok _) (err _) h = absurd (cc)
revoked-IsSpared subject user_ids now m (ok _) (ok _) h =
    revoke_targets-IsSpared subject user_ids now m

-- After a revocation of users that succeeds, none of their sessions is read again, at any time and
-- whatever other requests come in between, rotations included, until one is saved for them.
pub revoke_users_bars :
    (subject : Kind) (user_ids : List ℕ) (ctx reader : Context) (now later : ℕ) (m : Sessions)
    (rs : List Request) (session_id : Text) (value : Snapshot)
    → (revoke_users ctx subject user_ids now m).0 ≡ ok tt
    → All (SavesSpared subject user_ids) rs
    → (get reader session_id later (perform_all rs (revoke_users ctx subject user_ids now m).1)).0
      ≡ ok (some value)
    → is_target subject user_ids value ≡ false
unfolding revoke_users revoke_user_set
revoke_users_bars subject user_ids ctx reader now later m rs session_id value revoked spared h =
    let start = revoked-IsSpared subject user_ids now m (context_error ctx) _ revoked in
    let (stored, good, _, same) =
      get-stored (IsSpared subject user_ids) reader session_id later
        (perform_all rs (revoke_users ctx subject user_ids now m).1) value
        (perform_all-keeps (IsSpared subject user_ids) rs _
          (Permits-IsSpared subject user_ids rs spared) start)
        h in
    subst (λ v. is_target subject user_ids v ≡ false) same good

-- One session, revoked by its id.
module _ (revoked : Text) where
  abbrev pub IsOther : Text → Snapshot → Type 0
  IsOther session_id _ = text_eq session_id revoked ≡ false

  -- No session is saved under that id.
  abbrev pub SavesOther : Request → Type 0
  SavesOther (saves ctx value checked now) = text_eq value.session_id revoked ≡ false
  SavesOther _ = Unit

  Permits-IsOther : (rs : List Request) → All SavesOther rs → All (Permits IsOther) rs
  Permits-IsOther [] h = tt
  Permits-IsOther (reads _ _ _ ∷ rs) h = (tt, Permits-IsOther rs h.1)
  Permits-IsOther (saves _ _ _ _ ∷ rs) h = (λ _. h.0, Permits-IsOther rs h.1)
  Permits-IsOther (rotates _ _ _ _ _ _ ∷ rs) h = (λ _ _ _ other. other, Permits-IsOther rs h.1)
  Permits-IsOther (revokes _ _ ∷ rs) h = (tt, Permits-IsOther rs h.1)
  Permits-IsOther (bans _ _ _ _ ∷ rs) h = (tt, Permits-IsOther rs h.1)

  Each-revoked :
      (c : Checked) (m : Sessions)
      → (guarded c (λ m. (ok tt, erase revoked m)) m).0 ≡ ok tt
      → Each IsOther (guarded c (λ m. (ok tt, erase revoked m)) m).1
  Each-revoked (err _) m h = absurd (cc)
  Each-revoked (ok _) m h = Each-erased revoked m

  IsOther-none : (m : Sessions) → Each IsOther m → lookup revoked m ≡ none
  IsOther-none m h = elim (Option-cases (lookup revoked m)) [
    | inl gone ↦ gone
    | inr (value, found) ↦
        let other = Each-lookup IsOther revoked value m h found in
        let same = text_eq_refl revoked in absurd (cc)
  ]

  rotate_gone :
      (later : ℕ) (expected : Text) (next : Snapshot) (c : Checked) (m : Sessions)
      → Each IsOther m
      → (guarded c (λ m. rotate_within revoked expected next (cleanup_expired later m)) m).0
        ≡ (c >> err not_found)
  unfolding rotation
  rotate_gone later expected next (err _) m h = refl
  rotate_gone later expected next (ok _) m h =
      rw (IsOther-none (cleanup_expired later m) (cleanup_expired-keeps IsOther later m h)) refl

  -- After a session is revoked, it is not read again and no refresh token is rotated for it, at any
  -- time and whatever other requests come in between, until a session is saved under its id.
  pub revoke_bars :
      (ctx other : Context) (now checked later : ℕ) (m : Sessions) (rs : List Request)
      (expected : Text) (next : Snapshot)
      → (revoke ctx revoked m).0 ≡ ok tt
      → All SavesOther rs
      → ((value : Snapshot)
          → (get other revoked now (perform_all rs (revoke ctx revoked m).1)).0 ≢ ok (some value))
        × ((rotate_refresh other revoked expected next checked later
              (perform_all rs (revoke ctx revoked m).1)).0
            ≡ (check_rotate other revoked expected next checked >> err not_found))
  unfolding revoke rotate_refresh
  revoke_bars ctx other now checked later m rs expected next done spared =
      let start = Each-revoked (check_get ctx revoked) m done in
      let kept = perform_all-keeps IsOther rs _ (Permits-IsOther rs spared) start in
      (
        λ value h.
            let (_, gone, _, _) = get-stored IsOther other revoked now _ value kept h in
            let same = text_eq_refl revoked in cc,
        rotate_gone later expected next _ _ kept,
      )
