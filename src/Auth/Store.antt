-- ===== src/Auth/Store.antt =====
-- The memory store of sessions (cool-next/auth/store.go): `MemoryStore`. Each operation holds the
-- store's mutex while it reads and writes the map, so it is one step. An operation that reads the
-- clock before it waits for the mutex, and again under it, takes both readings.
pub mod Requests
pub mod Keeping
pub mod Sound
pub mod Rotation
pub mod Revocation
pub mod Refinement
use cool_admin_go_next.Common.{
  ℕ, ◌==◌, Bool, true, false, not, List, [], ◌∷◌, Text, text_eq, Option, none, some, Map, lookup,
  erase, put, keep, any, ltb, if◌then◌else◌, ◌&&◌, ◌||◌, Result, ok, err, ◌>>=◌, ◌>>◌,
}
use cool_admin_go_next.Auth.Session.{
  Kind, is_admin, is_app, Snapshot, AuthError, Checked, Context, context_error, require, no_zero,
  invalid_session_id, invalid_rotation, other_session, not_found, replay, other_identity,
  invalid_user, valid_identifier, validate_snapshot, clone_snapshot,
}

abbrev pub Sessions : Type 0
Sessions = Map Snapshot

-- ExpiresAt.After(now)
abbrev pub is_live : ℕ → Snapshot → Bool
is_live now value = ltb now value.expires_at

unfoldable pub cleanup_expired : ℕ → Sessions → Sessions
unfolding keep
cleanup_expired now m = keep (is_live now) m

abbrev pub contains : List ℕ → ℕ → Bool
contains ids id = any (λ i. i == id) ids

-- The set of users, as the list that it is made of.
unfoldable pub revoke_user_set : Kind → List ℕ → Result AuthError (List ℕ)
unfolding is_admin is_app
revoke_user_set subject user_ids =
    require ((is_admin subject || is_app subject) && no_zero user_ids) invalid_user >> ok user_ids

-- An operation that is refused before it takes the mutex leaves the map as it was.
abbrev pub guarded :
    {A : Type 0}
    → Checked
    → (Sessions → Result AuthError A × Sessions)
    → Sessions
    → Result AuthError A × Sessions
guarded (err e) body m = (err e, m)
guarded (ok _) body m = body m

-- The checks of each operation before it takes the mutex.
unfoldable pub check_get : Context → Text → Checked
unfolding valid_identifier
check_get ctx session_id =
    context_error ctx >> require (valid_identifier session_id) invalid_session_id

unfoldable pub check_save : Context → Snapshot → ℕ → Checked
unfolding validate_snapshot
check_save ctx value now = context_error ctx >> validate_snapshot value now

unfoldable pub check_rotate : Context → Text → Text → Snapshot → ℕ → Checked
unfolding valid_identifier validate_snapshot
check_rotate ctx session_id expected next now =
    context_error ctx
    >> require (valid_identifier session_id && valid_identifier expected) invalid_rotation
    >> validate_snapshot next now
    >> require (text_eq next.session_id session_id) other_session

abbrev pub clone_found : Option Snapshot → Option Snapshot
clone_found none = none
clone_found (some value) = some (clone_snapshot value)

abbrev pub read_within : Text → ℕ → Sessions → Result AuthError (Option Snapshot) × Sessions
read_within session_id now m =
    let cleaned = cleanup_expired now m in (ok (clone_found (lookup session_id cleaned)), cleaned)

unfoldable pub get : Context → Text → ℕ → Sessions → Result AuthError (Option Snapshot) × Sessions
unfolding cleanup_expired check_get
get ctx session_id now = guarded (check_get ctx session_id) (read_within session_id now)

-- `checked` is the clock when the session was checked, `now` the clock under the mutex.
unfoldable pub save : Context → Snapshot → ℕ → ℕ → Sessions → Checked × Sessions
unfolding cleanup_expired check_save
save ctx value checked now =
    guarded (check_save ctx value checked)
      λ m. (ok tt, put value.session_id (clone_snapshot value) (cleanup_expired now m))

abbrev pub same_identity : Snapshot → Snapshot → Bool
same_identity current next =
    text_eq current.principal.subject next.principal.subject
    && current.principal.user_id == next.principal.user_id

-- What a rotation decides about the session that it finds.
unfoldable pub rotation : Text → Snapshot → Option Snapshot → Checked
rotation expected next none = err not_found
rotation expected next (some current) =
    require (text_eq current.refresh_jti expected) replay
    >> require (same_identity current next) other_identity

abbrev pub rotate_within : Text → Text → Snapshot → Sessions → Checked × Sessions
rotate_within session_id expected next m =
    guarded (rotation expected next (lookup session_id m))
      (λ m. (ok tt, put session_id (clone_snapshot next) m)) m

unfoldable pub rotate_refresh :
    Context → Text → Text → Snapshot → ℕ → ℕ → Sessions → Checked × Sessions
unfolding cleanup_expired check_rotate rotation
rotate_refresh ctx session_id expected next checked now =
    guarded (check_rotate ctx session_id expected next checked)
      λ m. rotate_within session_id expected next (cleanup_expired now m)

unfoldable pub revoke : Context → Text → Sessions → Checked × Sessions
unfolding check_get
revoke ctx session_id = guarded (check_get ctx session_id) (λ m. (ok tt, erase session_id m))

-- A session of one of the users.
abbrev pub is_target : Kind → List ℕ → Snapshot → Bool
is_target subject user_ids value =
    text_eq value.principal.subject subject && contains user_ids value.principal.user_id

abbrev pub delete_users : Kind → List ℕ → ℕ → Sessions → Sessions
delete_users subject user_ids now m =
    keep (λ value. not (is_target subject user_ids value)) (cleanup_expired now m)

abbrev pub revoke_targets : Kind → ℕ → Result AuthError (List ℕ) → Sessions → Checked × Sessions
revoke_targets subject now (err e) m = (err e, m)
revoke_targets subject now (ok []) m = (ok tt, m)
revoke_targets subject now (ok (id ∷ ids)) m = (ok tt, delete_users subject (id ∷ ids) now m)

unfoldable pub revoke_users : Context → Kind → List ℕ → ℕ → Sessions → Checked × Sessions
unfolding cleanup_expired revoke_user_set
revoke_users ctx subject user_ids now =
    guarded (context_error ctx) (revoke_targets subject now (revoke_user_set subject user_ids))
