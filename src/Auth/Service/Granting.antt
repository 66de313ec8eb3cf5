-- ===== src/Auth/Service/Granting.antt =====
-- What it takes to be authenticated (cool-next/auth/identity.go, cool-next/auth/perm.go).
use cool_admin_go_next.Common.{
  ℕ, ◌<◌, subst, arith, Bool, true, false, Text, Option, none, some, ltb, ◌≡◌, refl, sym, ap, ◌∙◌,
  ◌⊎◌, inl, inr, Result, ok, err, Bool-cases, ok-bind,
}
use cool_admin_go_next.Auth.Session.{Snapshot, AuthError, Checked, Context}
use cool_admin_go_next.Auth.Service.{
  Codec, CodecError, Store, Claims, Moments, Reply, ServiceError, unauthenticated, no_permission,
  no_resource, check_claims, verify, verify_claims, verify_read, verify_found, revoked, is_replay,
}
use cool_admin_go_next.Auth.Service.Ownership.{
  IsOwn, check_claims-IsOwn, IsContext, context_with_session-IsContext, IsAsked, to_authz-IsAsked,
}
use cool_admin_go_next.Auth.Service.Authorization.{
  Authorizer, Authorization, Rule, Verified, VerifiedIdentity, context_with_session, to_authz,
  is_blank, authorize, authorize_with, allowed, access, accessed, authorized, permitted,
  authenticate,
}

module _ {S : Type 0} (codec : Codec) (store : Store S) where
  -- A token and its session that `verify` accepts: the session was read from the store, the token's
  -- claims are the session's, and it has not expired.
  abbrev pub IsVerified : Context → Text → Bool → Moments → S → Claims → Snapshot → Type 0
  IsVerified ctx token refresh at s claims current =
      (codec.parse token refresh ≡ ok claims)
      × ((store.get ctx claims.session_id at.read_at s).0 ≡ ok (some current))
      × IsOwn claims current
      × (at.verified_at < current.expires_at)

  abbrev Refused : ServiceError → Claims → Snapshot → Type 0
  Refused e claims current =
      ◌≡◌ {A = Result ServiceError (Claims × Snapshot)} (err e) (ok (claims, current))

  abbrev Accepted : Claims → Snapshot → Claims → Snapshot → Type 0
  Accepted asked value claims current =
      ◌≡◌ {A = Result ServiceError (Claims × Snapshot)} (ok (asked, value)) (ok (claims, current))

  never_ok : (r : Checked × S) (x : Claims × Snapshot) → (revoked codec store r).0 ≡ ok x → ⊥
  never_ok (ok _, s) x h = cc
  never_ok (err e, s) x h = cc

  found-verified :
      (ctx : Context) (refresh : Bool) (now : ℕ) (asked claims : Claims) (meanwhile : S → S)
      (found : Option Snapshot) (s : S) (current : Snapshot)
      → (verify_found codec store ctx refresh now asked meanwhile found s).0 ≡ ok (claims, current)
      → (asked ≡ claims)
        × (found ≡ some current)
        × IsOwn claims current
        × (now < current.expires_at)
        × ((verify_found codec store ctx refresh now asked meanwhile found s).1 ≡ s)
  found-verified ctx refresh now asked claims meanwhile none s current h = absurd (cc)
  found-verified ctx refresh now asked claims meanwhile (some value) s current h =
      elim (Bool-cases (ltb now value.expires_at)) [
        | inr ended ↦
            let refused : Refused unauthenticated claims current = rw ended at h in absurd (cc)
        | inl live ↦ elim (Bool-cases (check_claims asked value)) [
          | inl fits ↦
              let same : Accepted asked value claims current = rw (live, fits) at h in
              let claim : asked ≡ claims = cc in
              let session : value ≡ current = cc in
              (
                claim,
                ap some session,
                rw (← claim, ← session) (check_claims-IsOwn asked value fits),
                rw (← session) (ground arith),
                rw (live, fits) refl,
              )
          | inr unfit ↦ elim (Bool-cases (is_replay codec store refresh asked value)) [
            | inl replayed ↦ absurd (
                never_ok (store.revoke ctx asked.session_id (meanwhile s)) (claims, current)
                  (rw (live, unfit, replayed) at h))
            | inr other ↦
                let refused : Refused unauthenticated claims current =
                  rw (live, unfit, other) at h in
                absurd (cc)
          ]
        ]
      ]

  read-verified :
      (ctx : Context) (refresh : Bool) (now : ℕ) (asked claims : Claims) (meanwhile : S → S)
      (r : Result AuthError (Option Snapshot) × S) (current : Snapshot)
      → (verify_read codec store ctx refresh now asked meanwhile r).0 ≡ ok (claims, current)
      → (asked ≡ claims)
        × (r.0 ≡ ok (some current))
        × IsOwn claims current
        × (now < current.expires_at)
        × ((verify_read codec store ctx refresh now asked meanwhile r).1 ≡ r.1)
  read-verified ctx refresh now asked claims meanwhile (err e, s) current h = absurd (cc)
  read-verified ctx refresh now asked claims meanwhile (ok found, s) current h =
      let (claim, session, fits, live, same) =
        found-verified ctx refresh now asked claims meanwhile found s current h in
      (claim, ap ok session, fits, live, same)

  claims-verified :
      (ctx : Context) (refresh : Bool) (at : Moments) (claims : Claims) (meanwhile : S → S)
      (parsed : Result CodecError Claims) (s : S) (current : Snapshot)
      → (verify_claims codec store ctx refresh at meanwhile parsed s).0 ≡ ok (claims, current)
      → (parsed ≡ ok claims)
        × ((store.get ctx claims.session_id at.read_at s).0 ≡ ok (some current))
        × IsOwn claims current
        × (at.verified_at < current.expires_at)
        × ((verify_claims codec store ctx refresh at meanwhile parsed s).1
            ≡ (store.get ctx claims.session_id at.read_at s).1)
  claims-verified ctx refresh at claims meanwhile (err e) s current h = absurd (cc)
  claims-verified ctx refresh at claims meanwhile (ok asked) s current h =
      let (claim, session, fits, live, same) =
        read-verified ctx refresh at.verified_at asked claims meanwhile
          (store.get ctx asked.session_id at.read_at s) current h in
      (
        ap ok claim,
        rw (← claim) session,
        fits,
        live,
        same ∙ ap (λ c. (store.get ctx c.session_id at.read_at s).1) claim,
      )

  pub verify-IsVerified :
      (ctx : Context) (token : Text) (refresh : Bool) (at : Moments) (meanwhile : S → S) (s : S)
      (claims : Claims) (current : Snapshot)
      → (verify codec store ctx token refresh at meanwhile s).0 ≡ ok (claims, current)
      → IsVerified ctx token refresh at s claims current
        × ((verify codec store ctx token refresh at meanwhile s).1
            ≡ (store.get ctx claims.session_id at.read_at s).1)
  unfolding verify
  verify-IsVerified ctx token refresh at meanwhile s claims current h =
      let (parsed, found, fits, live, same) =
        claims-verified ctx refresh at claims meanwhile (codec.parse token refresh) s current h in
      ((parsed, found, fits, live), same)

module _ {S : Type 0} (codec : Codec) (store : Store S) (authorizer : Option Authorizer) where
  -- The context of a session of the store whose access token is the one that was sent.
  abbrev pub IsAccessed : Context → Text → Moments → S → Verified → Type 0
  IsAccessed ctx token at s verified =
      (claims : Claims) × (current : Snapshot) × IsVerified codec store ctx token false at s claims
        current
      × (context_with_session claims current ≡ verified)
      × IsContext current verified

  accessed-verified :
      (r : Reply codec store (Claims × Snapshot)) (verified : Verified)
      → (accessed codec store authorizer r).0 ≡ ok verified
      → (claims : Claims) × (current : Snapshot) × (r.0 ≡ ok (claims, current))
        × (context_with_session claims current ≡ verified)
  accessed-verified (err e, s) verified h = cc
  accessed-verified (ok (claims, current), s) verified h = (claims, current, refl, cc)

  pub access-IsAccessed :
      (ctx : Context) (token : Text) (at : Moments) (meanwhile : S → S) (s : S)
      (verified : Verified)
      → (access codec store authorizer ctx token at meanwhile s).0 ≡ ok verified
      → IsAccessed ctx token at s verified
  unfolding access
  access-IsAccessed ctx token at meanwhile s verified h =
      let (claims, current, found, same) =
        accessed-verified (verify codec store ctx token false at meanwhile s) verified h in
      let verifies =
        (verify-IsVerified codec store ctx token false at meanwhile s claims current found).0 in
      (
        claims,
        current,
        verifies,
        same,
        subst (IsContext current) same (context_with_session-IsContext claims current verifies.2.1),
      )

  -- The authorizer was asked, about the identity and the rule, and agreed.
  abbrev pub IsAllowed : Rule → VerifiedIdentity → Type 0
  IsAllowed rule identity =
      (decide : Authorizer) × (request : Authorization) × (authorizer ≡ some decide)
      × IsAsked identity rule.permission rule.resource request
      × (decide request ≡ some true)

  -- What the context of a request has gained, if the request may go on.
  abbrev pub Granted : Context → Text → Rule → Moments → S → Option Verified → Type 0
  Granted ctx token rule at s none = rule.ignore_token ≡ true
  Granted ctx token rule at s (some verified) =
      IsAccessed ctx token at s verified
      × ((is_blank rule.permission ≡ true) ⊎ IsAllowed rule verified.identity)

  allowed-true : (o : Option Bool) → allowed o ≡ ok tt → o ≡ some true
  allowed-true none h = cc
  allowed-true (some false) h = cc
  allowed-true (some true) h = refl

  authorize-IsAllowed :
      (rule : Rule) (identity : VerifiedIdentity) (who : Option Authorizer)
      → who ≡ authorizer
      → authorize who rule.permission rule.resource (some identity) ≡ ok tt
      → IsAllowed rule identity
  unfolding authorize
  authorize-IsAllowed rule identity none e h = absurd (cc)
  authorize-IsAllowed rule identity (some decide) e h =
      elim (Bool-cases (is_blank rule.permission)) [
        | inl blank ↦
            let refused : ◌≡◌ {A = Result ServiceError (Unit {0})} (err no_permission) (ok tt) =
              rw blank at h in
            absurd (cc)
        | inr named ↦ elim (Bool-cases (is_blank rule.resource)) [
          | inl blank ↦
              let refused : ◌≡◌ {A = Result ServiceError (Unit {0})} (err no_resource) (ok tt) =
                rw (named, blank) at h in
              absurd (cc)
          | inr given ↦
              let asked : authorize_with decide rule.permission rule.resource (some identity)
                  ≡ ok tt =
                rw (named, given) at h in
              let (request, made, agreed) =
                ok-bind (to_authz identity rule.permission rule.resource) _ asked in
              let about = to_authz-IsAsked identity rule.permission rule.resource request made in
              (decide, request, sym e, about, allowed-true (decide request) agreed)
        ]
      ]

  authorized-Granted :
      (rule : Rule) (verified : Verified) (s : S) (r : Result ServiceError (Unit {0}))
      (granted : Option Verified)
      → (authorized codec store authorizer rule verified s r).0 ≡ ok granted
      → (granted ≡ some verified) × (r ≡ ok tt)
  authorized-Granted rule verified s (ok _) granted h = (cc, refl)
  authorized-Granted rule verified s (err e) granted h = cc

  permitted-Granted :
      (rule : Rule) (r : Reply codec store Verified) (granted : Option Verified)
      → (permitted codec store authorizer rule r).0 ≡ ok granted
      → (verified : Verified) × (granted ≡ some verified)
        × (r.0 ≡ ok verified)
        × ((is_blank rule.permission ≡ true) ⊎ IsAllowed rule verified.identity)
  permitted-Granted rule (err e, s) granted h = cc
  permitted-Granted rule (ok verified, s) granted h = elim (Bool-cases (is_blank rule.permission)) [
    | inl blank ↦
        let same : ◌≡◌ {A = Result ServiceError (Option Verified)} (ok (some verified))
            (ok granted) =
          rw blank at h in
        (verified, cc, refl, inl blank)
    | inr named ↦
        let (same, agreed) =
          authorized-Granted rule verified s
            (authorize authorizer rule.permission rule.resource (some verified.identity)) granted
            (rw named at h) in
        (
          verified,
          same,
          refl,
          inr (authorize-IsAllowed rule verified.identity authorizer refl agreed),
        )
  ]

  -- A request that may go on either has a rule that ignores tokens, and gains nothing; or its token
  -- was parsed as an access token, and the session that the store holds under its session id has not
  -- expired and has the token's session id, kind of user, user, identifier and, for an administrator,
  -- version of the password. It then gains that session and its user; and if the rule names a
  -- permission, the authorizer was asked about that user, the permission and the resource, and
  -- agreed.
  pub authenticate-Granted :
      (ctx : Context) (token : Text) (rule : Rule) (at : Moments) (meanwhile : S → S) (s : S)
      (granted : Option Verified)
      → (authenticate codec store authorizer ctx token rule at meanwhile s).0 ≡ ok granted
      → Granted ctx token rule at s granted
  unfolding authenticate
  authenticate-Granted ctx token rule at meanwhile s granted h =
      elim (Bool-cases rule.ignore_token) [
        | inl ignored ↦
            let same : ◌≡◌ {A = Result ServiceError (Option Verified)} (ok none) (ok granted) =
              rw ignored at h in
            let nothing : none ≡ granted = cc in rw (← nothing) ignored
        | inr checked ↦
            let reply = access codec store authorizer ctx token at meanwhile s in
            let (verified, same, accessed, allowed) =
              permitted-Granted rule reply granted (rw checked at h) in
            rw same (access-IsAccessed ctx token at meanwhile s verified accessed, allowed)
      ]
