-- ===== src/Auth/Session.antt =====
-- What a session is, and its checks (cool-next/auth/identity.go and store.go). Times are
-- nanoseconds since the Unix epoch; the zero time is 0, which is after no clock reading.
use cool_admin_go_next.Common.{
  ℕ, ◌==◌, Bool, true, false, not, List, [], ◌∷◌, Text, codes, text_eq, trim_space, is_empty_text,
  is_control, Option, none, some, any, ltb, if◌then◌else◌, ◌&&◌, ℤ, is_positive, is_zero, Result,
  ok, err, ◌>>◌, ◌≡◌, refl, text_eq_iff, ◌<◌, arith,
}

abbrev pub Kind : Type 0
Kind = Text

abbrev pub admin_kind : Kind
admin_kind = codes "admin"

abbrev pub app_kind : Kind
app_kind = codes "app"

unfoldable pub is_admin : Kind → Bool
is_admin subject = text_eq subject admin_kind

unfoldable pub is_app : Kind → Bool
is_app subject = text_eq subject app_kind

-- A nil slice of role ids is `none`.
pub record Principal : Type 0 where
  pub subject : Kind
  pub user_id : ℕ
  pub username : Text
  pub role_ids : Option (List ℕ)
  pub password_v : ℤ

-- The embedded `TokenSubject` is a principal with its session id.
pub record Snapshot : Type 0 where
  pub session_id : Text
  pub principal : Principal
  pub access_jti : Text
  pub refresh_jti : Text
  pub expires_at : ℕ

pub data AuthError : Type 0 where
  nil_context cancelled : AuthError
  invalid_session_id invalid_jti session_expired : AuthError
  no_user invalid_admin zero_role admin_fields invalid_kind : AuthError
  invalid_rotation other_session not_found replay other_identity invalid_user : AuthError
  undecodable unsupported_schema other_key empty_field invalid_field missing_fields : AuthError
  err_expired : AuthError

abbrev pub Checked : Type 0
Checked = Result AuthError (Unit {0})

-- What the source looks at in a `context.Context`.
pub data Context : Type 0 where
  no_context live ended : Context

abbrev pub context_error : Context → Checked
context_error no_context = err nil_context
context_error live = ok tt
context_error ended = err cancelled

abbrev pub require : Bool → AuthError → Checked
require holds e = if holds then ok tt else err e

-- `append([]uint64(nil), ids...)`: nil if it is empty.
abbrev pub clone_ids : Option (List ℕ) → Option (List ℕ)
clone_ids none = none
clone_ids (some []) = none
clone_ids (some (id ∷ ids)) = some (id ∷ ids)

abbrev pub members : Option (List ℕ) → List ℕ
members none = []
members (some ids) = ids

abbrev pub is_nil : Option (List ℕ) → Bool
is_nil none = true
is_nil (some _) = false

unfoldable pub valid_identifier : Text → Bool
unfolding trim_space is_control
valid_identifier value =
    not (is_empty_text value) && text_eq (trim_space value) value && not (any is_control value)

abbrev pub no_zero : List ℕ → Bool
no_zero ids = not (any (λ id. id == 0) ids)

unfoldable pub validate_admin : Principal → Checked
unfolding trim_space
validate_admin p =
    require (not (is_empty_text (trim_space p.username)) && is_positive p.password_v) invalid_admin
    >> require (no_zero (members p.role_ids)) zero_role

unfoldable pub validate_app : Principal → Checked
validate_app p =
    require (is_empty_text p.username && is_nil p.role_ids && is_zero p.password_v) admin_fields

unfoldable pub validate_principal : Principal → Checked
unfolding is_admin is_app validate_admin validate_app
validate_principal p =
    require (not (p.user_id == 0)) no_user
    >> (if is_admin p.subject
        then validate_admin p
        else if is_app p.subject
        then validate_app p
        else err invalid_kind)

unfoldable pub validate_snapshot : Snapshot → ℕ → Checked
unfolding valid_identifier validate_principal
validate_snapshot value now =
    require (valid_identifier value.session_id) invalid_session_id
    >> require (valid_identifier value.access_jti && valid_identifier value.refresh_jti) invalid_jti
    >> require (not (value.expires_at == 0) && ltb now value.expires_at) session_expired
    >> validate_principal value.principal

abbrev pub clone_principal : Principal → Principal
clone_principal p = record p { role_ids = clone_ids p.role_ids }

abbrev pub clone_snapshot : Snapshot → Snapshot
clone_snapshot value = record value { principal = clone_principal value.principal }

pub is_admin-is_app : (subject : Kind) → is_admin subject ≡ true → is_app subject ≡ false
unfolding is_admin is_app
is_admin-is_app subject h = rw ((text_eq_iff subject admin_kind).0 h) refl

-- A session that passes its checks, part by part.
pub validate_snapshot-parts :
    (value : Snapshot) (now : ℕ)
    → validate_snapshot value now ≡ ok tt
    → (valid_identifier value.session_id ≡ true)
      × ((valid_identifier value.access_jti && valid_identifier value.refresh_jti) ≡ true)
      × (now < value.expires_at)
      × (validate_principal value.principal ≡ ok tt)
unfolding validate_snapshot
validate_snapshot-parts value now h = ground arith

after_now :
    (now expires_at : ℕ) → now < expires_at → (not (expires_at == 0) && ltb now expires_at) ≡ true
after_now now expires_at h = ground arith

pub validate_snapshot-of_parts :
    (value : Snapshot) (now : ℕ)
    → valid_identifier value.session_id ≡ true
    → (valid_identifier value.access_jti && valid_identifier value.refresh_jti) ≡ true
    → now < value.expires_at
    → validate_principal value.principal ≡ ok tt
    → validate_snapshot value now ≡ ok tt
unfolding validate_snapshot
validate_snapshot-of_parts value now a b c d = rw (a, b, after_now now value.expires_at c) d

pub validate_principal-clone :
    (p : Principal) → validate_principal p ≡ ok tt → validate_principal (clone_principal p) ≡ ok tt
unfolding validate_principal validate_admin validate_app
validate_principal-clone p h = go p.role_ids h
  where
    go :
        (ids : Option (List ℕ))
        → validate_principal (record p { role_ids = ids }) ≡ ok tt
        → validate_principal (record p { role_ids = clone_ids ids }) ≡ ok tt
    go none h = h
    go (some []) h = ground arith
    go (some (id ∷ ids)) h = h

pub require-holds : (b : Bool) (e : AuthError) → require b e ≡ ok tt → b ≡ true
require-holds true e h = refl
require-holds false e h = cc
