-- ===== src/Auth/Store/Sound.antt =====
-- What the memory store returns (cool-next/auth/store.go).
use cool_admin_go_next.Common.{
  ℕ, true, List, [], ◌∷◌, Text, text_eq, text_eq_iff, text_eq_refl, subst, ◌<◌, Option, none, some,
  lookup, ◌≡◌, Result, ok, err, ◌&&◌, All, Each, Each-kept, Each-lookup, Option-cases, inl, inr,
  ok-left, ok-right, ltb→lt,
}
use cool_admin_go_next.Auth.Session.{
  Snapshot, AuthError, Checked, Context, clone_snapshot, context_error, valid_identifier,
  validate_principal, validate_snapshot, validate_snapshot-parts, validate_snapshot-of_parts,
  validate_principal-clone, require-holds, other_session,
}
use cool_admin_go_next.Auth.Store.{
  Sessions, cleanup_expired, check_get, check_save, check_rotate, get, guarded, is_live,
  read_within,
}
use cool_admin_go_next.Auth.Store.Requests.{
  Request, reads, saves, rotates, revokes, bans, perform_all,
}
use cool_admin_go_next.Auth.Store.Keeping.{Permits, perform_all-keeps, cleanup_expired-keeps}

-- A session under its own id, complete but for its end.
abbrev pub IsStored : Text → Snapshot → Type 0
IsStored session_id value =
    (text_eq value.session_id session_id ≡ true)
    × (valid_identifier value.session_id ≡ true)
    × ((valid_identifier value.access_jti && valid_identifier value.refresh_jti) ≡ true)
    × (validate_principal value.principal ≡ ok tt)

validate_snapshot-IsStored :
    (session_id : Text) (value : Snapshot) (now : ℕ)
    → text_eq value.session_id session_id ≡ true
    → validate_snapshot value now ≡ ok tt
    → IsStored session_id (clone_snapshot value)
validate_snapshot-IsStored session_id value now same valid =
    let parts = validate_snapshot-parts value now valid in
    (same, parts.0, parts.1, validate_principal-clone value.principal parts.3)

Permits-all : (rs : List Request) → All (Permits IsStored) rs
unfolding check_save check_rotate
Permits-all [] = tt
Permits-all (reads _ _ _ ∷ rs) = (tt, Permits-all rs)
Permits-all (saves ctx value checked now ∷ rs) = (
  λ valid.
      validate_snapshot-IsStored value.session_id value checked (text_eq_refl value.session_id)
        (ok-right (context_error ctx) _ valid),
  Permits-all rs,
)
Permits-all (rotates ctx session_id expected next checked now ∷ rs) = (
  λ current valid _ _.
      validate_snapshot-IsStored session_id next checked
        (require-holds (text_eq next.session_id session_id) other_session (ok-right _ _ valid))
        (ok-right _ (validate_snapshot next checked) (ok-left _ _ valid)),
  Permits-all rs,
)
Permits-all (revokes _ _ ∷ rs) = (tt, Permits-all rs)
Permits-all (bans _ _ _ _ ∷ rs) = (tt, Permits-all rs)

found-get :
    (c : Checked) (session_id : Text) (now : ℕ) (m : Sessions) (value : Snapshot)
    → (guarded c (read_within session_id now) m).0 ≡ ok (some value)
    → (stored : Snapshot) × (lookup session_id (cleanup_expired now m) ≡ some stored)
      × (clone_snapshot stored ≡ value)
found-get (err e) session_id now m value h = cc
found-get (ok _) session_id now m value h =
    elim (Option-cases (lookup session_id (cleanup_expired now m))) [
      | inl gone ↦
          let none_found : ◌≡◌ {A = Result AuthError (Option Snapshot)} (ok none)
              (ok (some value)) =
            rw gone at h in
          cc
      | inr (stored, found) ↦
          let one : ◌≡◌ {A = Result AuthError (Option Snapshot)} (ok (some (clone_snapshot stored)))
              (ok (some value)) =
            rw found at h in
          (stored, found, cc)
    ]

-- A session that is read is a stored one, and it has not expired.
pub get-stored :
    (G : Text → Snapshot → Type 0) (ctx : Context) (session_id : Text) (now : ℕ) (m : Sessions)
    (value : Snapshot)
    → Each G m
    → (get ctx session_id now m).0 ≡ ok (some value)
    → (stored : Snapshot) × G session_id stored
      × (now < stored.expires_at)
      × (clone_snapshot stored ≡ value)
unfolding get cleanup_expired
get-stored G ctx session_id now m value h e =
    let (stored, found, same) = found-get (check_get ctx session_id) session_id now m value e in
    let kept = cleanup_expired-keeps G now m h in
    (
      stored,
      Each-lookup G session_id stored (cleanup_expired now m) kept found,
      ltb→lt now stored.expires_at (
          Each-lookup (λ _ v. is_live now v ≡ true) session_id stored (cleanup_expired now m)
            (Each-kept (is_live now) m) found),
      same,
    )

-- Whatever requests a new store has served, a session that it returns has the id that was asked
-- for, has not expired, and passes every check of a session at that moment.
pub get-valid :
    (rs : List Request) (ctx : Context) (session_id : Text) (now : ℕ) (value : Snapshot)
    → (get ctx session_id now (perform_all rs [])).0 ≡ ok (some value)
    → (value.session_id ≡ session_id) × (validate_snapshot value now ≡ ok tt)
get-valid rs ctx session_id now value h =
    let (stored, good, later, same) =
      get-stored IsStored ctx session_id now (perform_all rs []) value
        (perform_all-keeps IsStored rs [] (Permits-all rs) tt) h in
    let valid =
      validate_snapshot-of_parts (clone_snapshot stored) now good.1 good.2 later
        (validate_principal-clone stored.principal good.3) in
    subst (λ v. (v.session_id ≡ session_id) × (validate_snapshot v now ≡ ok tt)) same
      ((text_eq_iff stored.session_id session_id).0 good.0, valid)
