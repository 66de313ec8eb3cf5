-- ===== src/Auth/Store/Rotation.antt =====
-- A refresh token is rotated once (cool-next/auth/store.go).
use cool_admin_go_next.Common.{
  ℕ, false, List, [], ◌∷◌, Text, text_eq, text_eq_refl, lookup, put, ◌≡◌, refl, ok, err, ◌&&◌, ◌>>◌,
  ◌⊎◌, inl, inr, All, Each, Each-erased, Each-lookup, Each-map, Option-cases, arith,
}
use cool_admin_go_next.Auth.Session.{Snapshot, Checked, Context, clone_snapshot, not_found, replay}
use cool_admin_go_next.Auth.Store.{
  Sessions, cleanup_expired, check_rotate, rotate_refresh, rotate_within, rotation, guarded,
}
use cool_admin_go_next.Auth.Store.Requests.{
  Request, reads, saves, rotates, revokes, bans, perform_all,
}
use cool_admin_go_next.Auth.Store.Keeping.{Permits, perform_all-keeps, cleanup_expired-keeps}

module _ (session_id used : Text) where
  -- The session does not hold the refresh token.
  abbrev pub IsRotated : Text → Snapshot → Type 0
  IsRotated key value = (text_eq key session_id && text_eq value.refresh_jti used) ≡ false

  -- What is written brings the refresh token back to no session of that id.
  abbrev pub WritesFresh : Request → Type 0
  WritesFresh (saves ctx value checked now) = IsRotated value.session_id value
  WritesFresh (rotates ctx key expected next checked now) = IsRotated key next
  WritesFresh _ = Unit

  Permits-IsRotated : (rs : List Request) → All WritesFresh rs → All (Permits IsRotated) rs
  Permits-IsRotated [] h = tt
  Permits-IsRotated (reads _ _ _ ∷ rs) h = (tt, Permits-IsRotated rs h.1)
  Permits-IsRotated (saves _ _ _ _ ∷ rs) h = (λ _. h.0, Permits-IsRotated rs h.1)
  Permits-IsRotated (rotates _ _ _ _ _ _ ∷ rs) h = (λ _ _ _ _. h.0, Permits-IsRotated rs h.1)
  Permits-IsRotated (revokes _ _ ∷ rs) h = (tt, Permits-IsRotated rs h.1)
  Permits-IsRotated (bans _ _ _ _ ∷ rs) h = (tt, Permits-IsRotated rs h.1)

  Each-put_fresh :
      (value : Snapshot) (m : Sessions)
      → text_eq value.refresh_jti used ≡ false
      → Each IsRotated (put session_id value m)
  unfolding put
  Each-put_fresh value m h = (
    rw h (ground arith),
    Each-map (λ k _. text_eq k session_id ≡ false) IsRotated (λ k v other. rw other refl) _
        (Each-erased session_id m),
  )

  rotated :
      (c : Checked) (expected : Text) (next : Snapshot) (now : ℕ) (m : Sessions)
      → text_eq next.refresh_jti used ≡ false
      → (guarded c (λ m. rotate_within session_id expected next (cleanup_expired now m)) m).0
        ≡ ok tt
      → Each IsRotated
          (guarded c (λ m. rotate_within session_id expected next (cleanup_expired now m)) m).1
  rotated (err _) expected next now m fresh h = absurd (cc)
  rotated (ok _) expected next now m fresh h =
      within (rotation expected next (lookup session_id (cleanup_expired now m))) h
    where
      within :
          (c : Checked)
          → (guarded c
              (λ m. (ok tt, put session_id (clone_snapshot next) m))
              (cleanup_expired now m)).0
            ≡ ok tt
          → Each IsRotated
              (guarded c
                (λ m. (ok tt, put session_id (clone_snapshot next) m))
                (cleanup_expired now m)).1
      within (err _) h = absurd (cc)
      within (ok _) h = Each-put_fresh (clone_snapshot next) (cleanup_expired now m) fresh

  refused :
      (c : Checked) (next : Snapshot) (now : ℕ) (m : Sessions)
      → Each IsRotated m
      → ((guarded c (λ m. rotate_within session_id used next (cleanup_expired now m)) m).0
          ≡ (c >> err replay))
        ⊎ ((guarded c (λ m. rotate_within session_id used next (cleanup_expired now m)) m).0
            ≡ (c >> err not_found))
  unfolding rotation
  refused (err _) next now m h = inl refl
  refused (ok _) next now m h = elim (Option-cases (lookup session_id (cleanup_expired now m))) [
    | inl gone ↦ inr (rw gone refl)
    | inr (current, found) ↦
        let held =
          Each-lookup IsRotated session_id current (cleanup_expired now m)
            (cleanup_expired-keeps IsRotated now m h) found in
        let stale : text_eq current.refresh_jti used ≡ false =
          rw (text_eq_refl session_id) at held in
        inl (rw (found, stale) refl)
  ]

  -- A refresh token that was rotated for a new one is never accepted again for that session:
  -- whatever requests come in between, as long as none writes the old token back, a second rotation
  -- of it is refused as a replay, or because the session is gone (or by the checks of its arguments,
  -- which come first).
  pub rotate_refresh_once :
      (ctx ctx' : Context) (next next' : Snapshot) (checked now checked' now' : ℕ) (m : Sessions)
      (rs : List Request)
      → (rotate_refresh ctx session_id used next checked now m).0 ≡ ok tt
      → text_eq next.refresh_jti used ≡ false
      → All WritesFresh rs
      → let later = perform_all rs (rotate_refresh ctx session_id used next checked now m).1 in
        ((rotate_refresh ctx' session_id used next' checked' now' later).0
          ≡ (check_rotate ctx' session_id used next' checked' >> err replay))
        ⊎ ((rotate_refresh ctx' session_id used next' checked' now' later).0
            ≡ (check_rotate ctx' session_id used next' checked' >> err not_found))
  unfolding rotate_refresh
  rotate_refresh_once ctx ctx' next next' checked now checked' now' m rs done fresh writes =
      let start =
        rotated (check_rotate ctx session_id used next checked) used next now m fresh done in
      refused (check_rotate ctx' session_id used next' checked') next' now' _
        (perform_all-keeps IsRotated rs _ (Permits-IsRotated rs writes) start)
