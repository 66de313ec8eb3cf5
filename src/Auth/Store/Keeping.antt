-- ===== src/Auth/Store/Keeping.antt =====
-- What is true of every stored session stays true, if the writes permit it (cool-next/auth/store.go).
use cool_admin_go_next.Common.{
  ℕ, List, [], ◌∷◌, Text, some, lookup, ◌≡◌, refl, Result, ok, err, All, Each, Each-keep,
  Each-erase, Each-put, Each-lookup, Option-cases, inl, inr, not,
}
use cool_admin_go_next.Auth.Session.{
  Kind, Snapshot, AuthError, Checked, clone_snapshot, context_error,
}
use cool_admin_go_next.Auth.Store.{
  Sessions, cleanup_expired, check_get, check_save, check_rotate, get, save, rotation,
  rotate_refresh, rotate_within, revoke, revoke_users, revoke_user_set, revoke_targets, guarded,
  is_live, is_target,
}
use cool_admin_go_next.Auth.Store.Requests.{
  Request, reads, saves, rotates, revokes, bans, perform, perform_all,
}

module _ {A : Type 0} (Q : Sessions → Type 0) where
  pub guarded-keeps :
      (c : Checked) (body : Sessions → Result AuthError A × Sessions) (m : Sessions)
      → Q m
      → (c ≡ ok tt → Q (body m).1)
      → Q (guarded c body m).1
  guarded-keeps (ok _) body m h k = k refl
  guarded-keeps (err e) body m h k = h

module _ (G : Text → Snapshot → Type 0) where
  -- What a request has to bring for the sessions to keep `G`.
  abbrev pub Permits : Request → Type 0
  Permits (saves ctx value checked now) =
      check_save ctx value checked ≡ ok tt → G value.session_id (clone_snapshot value)
  Permits (rotates ctx session_id expected next checked now) =
      (current : Snapshot)
      → check_rotate ctx session_id expected next checked ≡ ok tt
      → rotation expected next (some current) ≡ ok tt
      → G session_id current
      → G session_id (clone_snapshot next)
  Permits _ = Unit

  pub cleanup_expired-keeps : (now : ℕ) (m : Sessions) → Each G m → Each G (cleanup_expired now m)
  unfolding cleanup_expired
  cleanup_expired-keeps now m h = Each-keep G (is_live now) m h

  rotate_within-keeps :
      (session_id expected : Text) (next : Snapshot) (m : Sessions)
      → ((current : Snapshot)
          → rotation expected next (some current) ≡ ok tt
          → G session_id current
          → G session_id (clone_snapshot next))
      → Each G m
      → Each G (rotate_within session_id expected next m).1
  unfolding rotation
  rotate_within-keeps session_id expected next m permits h =
      elim (Option-cases (lookup session_id m)) [
        | inl gone ↦ rw gone h
        | inr (current, found) ↦ rw found (
            guarded-keeps (Each G) (rotation expected next (some current)) _ m h λ fits.
              Each-put G session_id (clone_snapshot next) m
                (permits current fits (Each-lookup G session_id current m h found)) h)
      ]

  revoke_targets-keeps :
      (subject : Kind) (now : ℕ) (ids : Result AuthError (List ℕ)) (m : Sessions)
      → Each G m
      → Each G (revoke_targets subject now ids m).1
  revoke_targets-keeps subject now (err e) m h = h
  revoke_targets-keeps subject now (ok []) m h = h
  revoke_targets-keeps subject now (ok (id ∷ ids)) m h =
      Each-keep G (λ value. not (is_target subject (id ∷ ids) value)) (cleanup_expired now m)
        (cleanup_expired-keeps now m h)

  pub perform-keeps : (r : Request) (m : Sessions) → Permits r → Each G m → Each G (perform r m)
  unfolding perform get save rotate_refresh revoke revoke_users
  perform-keeps (reads ctx session_id now) m p h =
      guarded-keeps (Each G) (check_get ctx session_id) _ m h (λ _. cleanup_expired-keeps now m h)
  perform-keeps (saves ctx value checked now) m p h =
      guarded-keeps (Each G) (check_save ctx value checked) _ m h λ valid.
        Each-put G value.session_id (clone_snapshot value) (cleanup_expired now m) (p valid)
          (cleanup_expired-keeps now m h)
  perform-keeps (rotates ctx session_id expected next checked now) m p h =
      guarded-keeps (Each G) (check_rotate ctx session_id expected next checked) _ m h λ valid.
        rotate_within-keeps session_id expected next (cleanup_expired now m)
          (λ current. p current valid) (cleanup_expired-keeps now m h)
  perform-keeps (revokes ctx session_id) m p h =
      guarded-keeps (Each G) (check_get ctx session_id) _ m h (λ _. Each-erase G session_id m h)
  perform-keeps (bans ctx subject user_ids now) m p h =
      guarded-keeps (Each G) (context_error ctx) _ m h
        (λ _. revoke_targets-keeps subject now (revoke_user_set subject user_ids) m h)

  pub perform_all-keeps :
      (rs : List Request) (m : Sessions) → All Permits rs → Each G m → Each G (perform_all rs m)
  unfolding perform_all
  perform_all-keeps [] m p h = h
  perform_all-keeps (r ∷ rs) m p h =
      perform_all-keeps rs (perform r m) p.1 (perform-keeps r m p.0 h)
