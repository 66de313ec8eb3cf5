-- ===== src/Auth/Service/Authorization.antt =====
-- Access and Authenticate (cool-next/auth/identity.go), Authorize and the rule of a protocol
-- (cool-next/auth/perm.go). A request's context gains the identity and the session that were
-- verified, or nothing.
use cool_admin_go_next.Common.{
  ℕ, ◌==◌, Bool, true, false, List, [], Text, trim_space, is_empty_text, Option, none, some,
  if◌then◌else◌, ℤ, pos, Result, ok, err, ◌>>=◌,
}
use cool_admin_go_next.Auth.Session.{
  Kind, admin_kind, app_kind, is_admin, is_app, Snapshot, Context, clone_ids,
}
use cool_admin_go_next.Auth.Service.{
  Codec, Store, Claims, Moments, Reply, ServiceError, verify, no_authorizer, no_permission,
  no_resource, no_subject, unauthenticated, bad_credential, unauthorized, forbidden,
}

pub record AdminIdentity : Type 0 where
  pub user_id : ℕ
  pub username : Text
  pub password_v : ℤ
  pub role_ids : Option (List ℕ)

pub record VerifiedIdentity : Type 0 where
  pub subject : Kind
  pub admin : AdminIdentity
  pub app : ℕ

pub record SessionState : Type 0 where
  pub id : Text
  pub subject : Kind
  pub access_jti : Text
  pub expires_at : ℕ

pub record Verified : Type 0 where
  pub session : SessionState
  pub identity : VerifiedIdentity

pub record Authorization : Type 0 where
  pub subject : Kind
  pub subject_id : ℕ
  pub permission : Text
  pub resource : Text

pub record Rule : Type 0 where
  pub ignore_token : Bool
  pub permission : Text
  pub resource : Text

-- The business's decision; nothing is an error of its own.
abbrev pub Authorizer : Type 0
Authorizer = Authorization → Option Bool

abbrev pub no_admin : AdminIdentity
no_admin = record { user_id = 0; username = []; password_v = pos 0; role_ids = none }

abbrev pub session_state : Snapshot → SessionState
session_state current = record {
  id = current.session_id;
  subject = current.principal.subject;
  access_jti = current.access_jti;
  expires_at = current.expires_at;
}

abbrev pub with_admin : Snapshot → VerifiedIdentity
with_admin current = record {
  subject = admin_kind;
  admin = record {
    user_id = current.principal.user_id;
    username = current.principal.username;
    password_v = current.principal.password_v;
    role_ids = clone_ids current.principal.role_ids;
  };
  app = 0;
}

abbrev pub with_app : Snapshot → VerifiedIdentity
with_app current = record { subject = app_kind; admin = no_admin; app = current.principal.user_id }

unfoldable pub context_with_session : Claims → Snapshot → Verified
unfolding is_admin
context_with_session claims current = record {
  session = session_state current;
  identity = if is_admin claims.principal.subject then with_admin current else with_app current;
}

-- The user of an identity: `toAuthz`'s SubjectID.
unfoldable pub subject_id : VerifiedIdentity → Option ℕ
unfolding is_admin is_app
subject_id identity =
    if is_admin identity.subject
    then some identity.admin.user_id
    else if is_app identity.subject
    then some identity.app
    else none

abbrev pub authorization_of :
    VerifiedIdentity → Text → Text → Option ℕ → Result ServiceError Authorization
authorization_of identity permission resource none = err no_subject
authorization_of identity permission resource (some id) =
    if id == 0
    then err no_subject
    else ok record {
      subject = identity.subject;
      subject_id = id;
      permission = permission;
      resource = resource;
    }

unfoldable pub to_authz : VerifiedIdentity → Text → Text → Result ServiceError Authorization
unfolding subject_id
to_authz identity permission resource =
    authorization_of identity permission resource (subject_id identity)

abbrev pub allowed : Option Bool → Result ServiceError (Unit {0})
allowed none = err unauthorized
allowed (some false) = err forbidden
allowed (some true) = ok tt

unfoldable pub is_blank : Text → Bool
unfolding trim_space
is_blank value = is_empty_text (trim_space value)

abbrev pub authorize_with :
    Authorizer → Text → Text → Option VerifiedIdentity → Result ServiceError (Unit {0})
authorize_with authorizer permission resource none = err unauthenticated
authorize_with authorizer permission resource (some identity) =
    to_authz identity permission resource >>= λ request. allowed (authorizer request)

unfoldable pub authorize :
    Option Authorizer → Text → Text → Option VerifiedIdentity → Result ServiceError (Unit {0})
unfolding to_authz is_blank
authorize none permission resource identity = err no_authorizer
authorize (some authorizer) permission resource identity =
    if is_blank permission
    then err no_permission
    else if is_blank resource
    then err no_resource
    else authorize_with authorizer permission resource identity

module _ {S : Type 0} (codec : Codec) (store : Store S) (authorizer : Option Authorizer) where
  abbrev pub accessed : Reply codec store (Claims × Snapshot) → Reply codec store Verified
  accessed (err e, s) = (err e, s)
  accessed (ok (claims, current), s) = (ok (context_with_session claims current), s)

  unfoldable pub access : Context → Text → Moments → (S → S) → S → Reply codec store Verified
  unfolding verify context_with_session
  access ctx token at meanwhile s = accessed (verify codec store ctx token false at meanwhile s)

  abbrev pub authorized :
      Rule → Verified → S → Result ServiceError (Unit {0}) → Reply codec store (Option Verified)
  authorized rule verified s (ok _) = (ok (some verified), s)
  authorized rule verified s (err e) = (err e, s)

  abbrev pub permitted : Rule → Reply codec store Verified → Reply codec store (Option Verified)
  permitted rule (err e, s) = (err e, s)
  permitted rule (ok verified, s) =
      if is_blank rule.permission
      then (ok (some verified), s)
      else authorized rule verified s
          (authorize authorizer rule.permission rule.resource (some verified.identity))

  unfoldable pub authenticate :
      Context → Text → Rule → Moments → (S → S) → S → Reply codec store (Option Verified)
  unfolding access is_blank authorize
  authenticate ctx token rule at meanwhile s =
      if rule.ignore_token then (ok none, s) else permitted rule (access ctx token at meanwhile s)

  abbrev pub with_resource :
      Context
      → Text
      → Text
      → Moments
      → (S → S)
      → Result ServiceError Text
      → S
      → Reply codec store (Option Verified)
  with_resource ctx token permission at meanwhile (err e) s = (err e, s)
  with_resource ctx token permission at meanwhile (ok resource) s =
      authenticate ctx token
        (record { ignore_token = false; permission = permission; resource = resource }) at meanwhile
        s

  -- `resource` builds the resource of the protocol.
  unfoldable pub auth_protocol :
      Context
      → Text
      → Text
      → Bool
      → Result ServiceError Text
      → Moments
      → (S → S)
      → S
      → Reply codec store (Option Verified)
  unfolding authenticate is_blank
  auth_protocol ctx token permission ignore_token resource at meanwhile s =
      if ignore_token
      then (ok none, s)
      else if is_empty_text token
      then (err bad_credential, s)
      else with_resource ctx token permission at meanwhile
          (if is_blank permission then ok [] else resource) s
