-- ===== src/Auth/Service/Ownership.antt =====
-- Whose claims, context and authorization they are (cool-next/auth/identity.go, cool-next/auth/perm.go).
use cool_admin_go_next.Common.{
  ℕ, ◌==◌, Bool, true, false, not, List, [], ◌∷◌, Text, text_eq, text_eq_iff, Option, none, some,
  ◌≡◌, refl, sym, ◌∙◌, ◌⊎◌, inl, inr, ℤ, int_eq, int_eq_iff, Result, ok, err, Bool-cases,
  if◌then◌else◌, ◌||◌, arith,
}
use cool_admin_go_next.Auth.Session.{
  Snapshot, is_admin, is_app, admin_kind, app_kind, clone_ids, members,
}
use cool_admin_go_next.Auth.Service.{Claims, ServiceError, check_claims}
use cool_admin_go_next.Auth.Service.Authorization.{
  VerifiedIdentity, Verified, Authorization, context_with_session, subject_id, authorization_of,
  to_authz,
}

-- The claims are those of the session: the same session, kind of user and user, for an administrator
-- the same version of the password, and the identifier of the session's token of that use.
abbrev pub IsOwn : Claims → Snapshot → Type 0
IsOwn claims current =
    (claims.session_id ≡ current.session_id)
    × (claims.principal.subject ≡ current.principal.subject)
    × (claims.principal.user_id ≡ current.principal.user_id)
    × ((is_admin current.principal.subject ≡ false)
        ⊎ (claims.principal.password_v ≡ current.principal.password_v))
    × (claims.jti ≡ (if claims.is_refresh then current.refresh_jti else current.access_jti))

version_same : (kind : Bool) (a b : ℤ) → (not kind || int_eq a b) ≡ true → (kind ≡ false) ⊎ (a ≡ b)
version_same false a b h = inl refl
version_same true a b h = inr ((int_eq_iff a b).0 h)

pub check_claims-IsOwn :
    (claims : Claims) (current : Snapshot)
    → check_claims claims current ≡ true
    → IsOwn claims current
unfolding check_claims is_admin
check_claims-IsOwn claims current h =
    let subject : claims.principal.subject ≡ current.principal.subject =
      (text_eq_iff claims.principal.subject current.principal.subject).0 (ground arith) in
    (
      (text_eq_iff claims.session_id current.session_id).0 (ground arith),
      subject,
      ground arith,
      rw (← subject) (
          version_same (text_eq claims.principal.subject admin_kind) claims.principal.password_v
            current.principal.password_v (ground arith)),
      (text_eq_iff claims.jti
            (if claims.is_refresh then current.refresh_jti else current.access_jti)).0
          (ground arith),
    )

-- The context names the session and its user.
abbrev IsAdmin : Snapshot → VerifiedIdentity → Type 0
IsAdmin current identity =
    (is_admin current.principal.subject ≡ true)
    × (identity.subject ≡ admin_kind)
    × (identity.admin.user_id ≡ current.principal.user_id)
    × (identity.admin.username ≡ current.principal.username)
    × (identity.admin.password_v ≡ current.principal.password_v)
    × (members identity.admin.role_ids ≡ members current.principal.role_ids)

abbrev IsApp : Snapshot → VerifiedIdentity → Type 0
IsApp current identity =
    (is_admin current.principal.subject ≡ false)
    × (identity.subject ≡ app_kind)
    × (identity.app ≡ current.principal.user_id)

abbrev pub IsContext : Snapshot → Verified → Type 0
IsContext current verified =
    (verified.session.id ≡ current.session_id)
    × (verified.session.subject ≡ current.principal.subject)
    × (verified.session.access_jti ≡ current.access_jti)
    × (verified.session.expires_at ≡ current.expires_at)
    × (IsAdmin current verified.identity ⊎ IsApp current verified.identity)

members_clone : (ids : Option (List ℕ)) → members (clone_ids ids) ≡ members ids
members_clone none = refl
members_clone (some []) = refl
members_clone (some (id ∷ ids)) = refl

pub context_with_session-IsContext :
    (claims : Claims) (current : Snapshot)
    → claims.principal.subject ≡ current.principal.subject
    → IsContext current (context_with_session claims current)
unfolding context_with_session
context_with_session-IsContext claims current same = (
  refl,
  refl,
  refl,
  refl,
  elim (Bool-cases (is_admin current.principal.subject)) [
    | inl admin ↦
        rw (same, admin)
          (inl (refl, refl, refl, refl, refl, members_clone current.principal.role_ids))
    | inr other ↦ rw (same, other) (inr (refl, refl, refl))
  ],
)

-- The user of an identity.
abbrev pub user_of : VerifiedIdentity → ℕ
user_of identity = if is_admin identity.subject then identity.admin.user_id else identity.app

-- The request asks about the user of the identity and what the rule names.
abbrev pub IsAsked : VerifiedIdentity → Text → Text → Authorization → Type 0
IsAsked identity permission resource request =
    (request.subject ≡ identity.subject)
    × (request.subject_id ≡ user_of identity)
    × (request.permission ≡ permission)
    × (request.resource ≡ resource)

authorization_of-IsAsked :
    (identity : VerifiedIdentity) (permission resource : Text) (request : Authorization)
    (who : Option ℕ)
    → ((id : ℕ) → who ≡ some id → id ≡ user_of identity)
    → authorization_of identity permission resource who ≡ ok request
    → IsAsked identity permission resource request
authorization_of-IsAsked identity permission resource request none user h = absurd (cc)
authorization_of-IsAsked identity permission resource request (some id) user h =
    elim (Bool-cases (id == 0)) [
      | inl zero_id ↦
          let refused : ◌≡◌ {A = Result ServiceError Authorization} (err _) (ok request) =
            rw zero_id at h in
          absurd (cc)
      | inr other ↦
          let made : ◌≡◌ {A = Result ServiceError Authorization} (ok _) (ok request) =
            rw other at h in
          (cc, (let same : id ≡ request.subject_id = cc in sym same ∙ user id refl), cc, cc)
    ]

subject_id-user_of :
    (identity : VerifiedIdentity) (id : ℕ) → subject_id identity ≡ some id → id ≡ user_of identity
unfolding subject_id
subject_id-user_of identity id h = elim (Bool-cases (is_admin identity.subject)) [
  | inl admin ↦ let user : some identity.admin.user_id ≡ some id = rw admin at h in rw admin (cc)
  | inr other ↦ elim (Bool-cases (is_app identity.subject)) [
    | inl app ↦ let user : some identity.app ≡ some id = rw (other, app) at h in rw other (cc)
    | inr unknown ↦
        let nobody : ◌≡◌ {A = Option ℕ} none (some id) = rw (other, unknown) at h in absurd (cc)
  ]
]

pub to_authz-IsAsked :
    (identity : VerifiedIdentity) (permission resource : Text) (request : Authorization)
    → to_authz identity permission resource ≡ ok request
    → IsAsked identity permission resource request
unfolding to_authz
to_authz-IsAsked identity permission resource request h =
    authorization_of-IsAsked identity permission resource request (subject_id identity)
      (subject_id-user_of identity) h
