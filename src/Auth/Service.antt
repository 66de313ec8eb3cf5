-- ===== src/Auth/Service.antt =====
-- The authentication service (cool-next/auth/identity.go): `Service` with Create, Access,
-- RefreshWith, Authenticate and what they share, and `Authorize` (cool-next/auth/perm.go). The codec
-- and the store are interfaces of the source, and records here; a call of the codec is a function
-- of its argument, so that the identifiers it draws are that function's. Between two calls of the
-- store, other requests may change the store: `meanwhile` and `afterwards` are what they do.
pub mod Authorization
pub mod Ownership
pub mod Granting
pub mod Memory
pub mod Barring
pub mod Refreshing
pub mod Replay
pub mod Detection
use cool_admin_go_next.Common.{
  ℕ, ◌==◌, Bool, true, false, not, List, [], ◌∷◌, Text, text_eq, trim_space, is_empty_text, Option,
  none, some, ltb, if◌then◌else◌, ◌&&◌, ◌||◌, ℤ, pos, int_eq, Result, ok, err, ◌>>=◌, ◌>>◌,
}
use cool_admin_go_next.Auth.Session.{
  Kind, admin_kind, app_kind, is_admin, is_app, Principal, Snapshot, AuthError, Checked, Context,
  not_found, replay, clone_ids, clone_principal, validate_principal,
}

pub data CodecError : Type 0 where
  invalid_credential failed : CodecError

-- The embedded `TokenSubject` is a session id and a principal.
pub record Claims : Type 0 where
  pub session_id : Text
  pub principal : Principal
  pub jti : Text
  pub is_refresh : Bool
  pub issued_at : ℕ
  pub not_before : ℕ
  pub expires_at : ℕ

pub record Pair : Type 0 where
  pub access_token : Text
  pub refresh_token : Text
  pub access_jti : Text
  pub refresh_jti : Text
  pub access_expires_at : ℕ
  pub expires_at : ℕ

pub record TokenSubject : Type 0 where
  pub session_id : Text
  pub principal : Principal

pub record Codec : Type 0 where
  pub issue_pair : TokenSubject → Result CodecError Pair
  pub parse : Text → Bool → Result CodecError Claims

-- The store that the service calls, over a state of its own.
pub record Store (S : Type 0) : Type 0 where
  pub get : Context → Text → ℕ → S → Result AuthError (Option Snapshot) × S
  pub save : Context → Snapshot → ℕ → ℕ → S → Checked × S
  pub rotate_refresh : Context → Text → Text → Snapshot → ℕ → ℕ → S → Checked × S
  pub revoke : Context → Text → S → Checked × S

pub data ServiceError : Type 0 where
  unauthenticated bad_credential codec_failed no_id unresolved other_user : ServiceError
  no_authorizer no_permission no_resource no_subject unauthorized forbidden : ServiceError
  invalid_principal read_failed save_failed rotate_failed revoke_failed : AuthError → ServiceError

-- The readings of the clock in one request, in the order in which they are made.
pub record Moments : Type 0 where
  pub read_at : ℕ
  pub verified_at : ℕ
  pub checked_at : ℕ
  pub written_at : ℕ

abbrev pub token_subject : Text → Principal → TokenSubject
token_subject session_id p = record { session_id = session_id; principal = clone_principal p }

abbrev pub to_principal : Snapshot → Principal
to_principal value = clone_principal value.principal

abbrev pub snapshot_from_pair : TokenSubject → Pair → Snapshot
snapshot_from_pair subject pair = record {
  session_id = subject.session_id;
  principal = subject.principal;
  access_jti = pair.access_jti;
  refresh_jti = pair.refresh_jti;
  expires_at = pair.expires_at;
}

-- `checkClaims`: the claims are those of the session.
unfoldable pub check_claims : Claims → Snapshot → Bool
unfolding is_admin
check_claims claims current =
    text_eq claims.session_id current.session_id
    && text_eq claims.principal.subject current.principal.subject
    && claims.principal.user_id == current.principal.user_id
    && (not (is_admin claims.principal.subject)
        || int_eq claims.principal.password_v current.principal.password_v)
    && text_eq claims.jti (if claims.is_refresh then current.refresh_jti else current.access_jti)

-- An error of one layer as one of the service's.
abbrev pub wrap {ℓ} : {E F A : Type ℓ} → (E → F) → Result E A → Result F A
wrap f (ok a) = ok a
wrap f (err e) = err (f e)

abbrev pub parse_error : CodecError → ServiceError
parse_error invalid_credential = bad_credential
parse_error failed = codec_failed

abbrev pub rotate_error : AuthError → ServiceError
rotate_error not_found = unauthenticated
rotate_error e = rotate_failed e

module _ {S : Type 0} (codec : Codec) (store : Store S) where
  abbrev pub Reply : Type 0 → Type 0
  Reply A = Result ServiceError A × S

  -- `revokeReplay`
  abbrev pub revoked : {B : Type 0} → Checked × S → Reply B
  revoked (ok _, s) = (err unauthenticated, s)
  revoked (err e, s) = (err (revoke_failed e), s)

  abbrev pub revoke_replay : {B : Type 0} → Context → Text → S → Reply B
  revoke_replay ctx session_id s = revoked (store.revoke ctx session_id s)

  -- Whether a session that does not fit the claims shows a replay.
  abbrev pub is_replay : Bool → Claims → Snapshot → Bool
  is_replay refresh claims current =
      refresh
      && not (is_empty_text claims.session_id)
      && not (text_eq claims.jti current.refresh_jti)

  abbrev pub verify_found :
      Context → Bool → ℕ → Claims → (S → S) → Option Snapshot → S → Reply (Claims × Snapshot)
  verify_found ctx refresh now claims meanwhile none s = (err unauthenticated, s)
  verify_found ctx refresh now claims meanwhile (some current) s =
      if not (ltb now current.expires_at)
      then (err unauthenticated, s)
      else if check_claims claims current
      then (ok (claims, current), s)
      else if is_replay refresh claims current
      then revoke_replay ctx claims.session_id (meanwhile s)
      else (err unauthenticated, s)

  abbrev pub verify_read :
      Context
      → Bool
      → ℕ
      → Claims
      → (S → S)
      → Result AuthError (Option Snapshot) × S
      → Reply (Claims × Snapshot)
  verify_read ctx refresh now claims meanwhile (err e, s) = (err (read_failed e), s)
  verify_read ctx refresh now claims meanwhile (ok found, s) =
      verify_found ctx refresh now claims meanwhile found s

  abbrev pub verify_claims :
      Context → Bool → Moments → (S → S) → Result CodecError Claims → S → Reply (Claims × Snapshot)
  verify_claims ctx refresh at meanwhile (err e) s = (err (parse_error e), s)
  verify_claims ctx refresh at meanwhile (ok claims) s =
      verify_read ctx refresh at.verified_at claims meanwhile
        (store.get ctx claims.session_id at.read_at s)

  unfoldable pub verify : Context → Text → Bool → Moments → (S → S) → S → Reply (Claims × Snapshot)
  verify ctx token refresh at meanwhile s =
      verify_claims ctx refresh at meanwhile (codec.parse token refresh) s

  -- Create
  abbrev pub saved : Pair → Checked × S → Reply Pair
  saved pair (ok _, s) = (ok pair, s)
  saved pair (err e, s) = (err (save_failed e), s)

  abbrev pub save_pair : Context → Moments → TokenSubject → Result CodecError Pair → S → Reply Pair
  save_pair ctx at subject (err _) s = (err codec_failed, s)
  save_pair ctx at subject (ok pair) s =
      saved pair (store.save ctx (snapshot_from_pair subject pair) at.checked_at at.written_at s)

  abbrev pub create_checked : Context → Moments → Principal → Option Text → Checked → S → Reply Pair
  create_checked ctx at principal new_id (err e) s = (err (invalid_principal e), s)
  create_checked ctx at principal none (ok _) s = (err no_id, s)
  create_checked ctx at principal (some session_id) (ok _) s =
      let subject = token_subject session_id principal in
      save_pair ctx at subject (codec.issue_pair subject) s

  unfoldable pub create : Context → Moments → Principal → Option Text → S → Reply Pair
  unfolding validate_principal
  create ctx at principal new_id s =
      create_checked ctx at principal new_id (validate_principal principal) s

  -- RefreshWith
  abbrev pub rotated : Context → Text → (S → S) → Pair → Checked × S → Reply Pair
  rotated ctx session_id afterwards pair (ok _, s) = (ok pair, s)
  rotated ctx session_id afterwards pair (err replay, s) =
      revoke_replay ctx session_id (afterwards s)
  rotated ctx session_id afterwards pair (err e, s) = (err (rotate_error e), s)

  abbrev pub rotate_pair :
      Context
      → Moments
      → (S → S)
      → Claims
      → Snapshot
      → TokenSubject
      → Result CodecError Pair
      → S
      → Reply Pair
  rotate_pair ctx at afterwards claims current subject (err _) s = (err codec_failed, s)
  rotate_pair ctx at afterwards claims current subject (ok pair) s =
      rotated ctx current.session_id afterwards pair (
        store.rotate_refresh ctx current.session_id claims.jti (snapshot_from_pair subject pair)
          at.checked_at at.written_at s)

  abbrev pub same_user : Principal → Snapshot → Bool
  same_user principal current =
      text_eq principal.subject current.principal.subject
      && principal.user_id == current.principal.user_id

  abbrev pub refresh_checked :
      Context → Moments → (S → S) → Claims → Snapshot → Principal → Checked → S → Reply Pair
  refresh_checked ctx at afterwards claims current principal (err e) s =
      (err (invalid_principal e), s)
  refresh_checked ctx at afterwards claims current principal (ok _) s =
      let subject = token_subject current.session_id principal in
      if same_user principal current
      then rotate_pair ctx at afterwards claims current subject (codec.issue_pair subject) s
      else (err other_user, s)

  abbrev pub refresh_resolved :
      Context → Moments → (S → S) → Claims → Snapshot → Option Principal → S → Reply Pair
  refresh_resolved ctx at afterwards claims current none s = (err unresolved, s)
  refresh_resolved ctx at afterwards claims current (some principal) s =
      refresh_checked ctx at afterwards claims current principal (validate_principal principal) s

  abbrev pub refresh_verified :
      Context
      → Moments
      → (S → S)
      → (S → S)
      → (Principal → Option Principal)
      → Reply (Claims × Snapshot)
      → Reply Pair
  refresh_verified ctx at meanwhile afterwards resolve (err e, s) = (err e, s)
  refresh_verified ctx at meanwhile afterwards resolve (ok (claims, current), s) =
      refresh_resolved ctx at afterwards claims current (resolve (to_principal current))
        (meanwhile s)

  -- `resolve` reads the user again, and fails if it returns nothing.
  unfoldable pub refresh_with :
      Context → Text → (Principal → Option Principal) → Moments → (S → S) → (S → S) → S → Reply Pair
  unfolding verify validate_principal
  refresh_with ctx token resolve at meanwhile afterwards s =
      refresh_verified ctx at meanwhile afterwards resolve (verify ctx token true at meanwhile s)
