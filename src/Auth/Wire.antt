-- ===== src/Auth/Wire.antt =====
-- The stored form of a session (cool-next/auth/store.go): `encode`, `decode` and `wireSession`.
-- The content is the JSON object that encoding/json writes and reads, as the values under its
-- names; `none` is a content that is no such object. A name is matched exactly.
pub mod RoundTrip
use cool_admin_go_next.Common.{
  ℕ, ◌*◌, ◌/◌, Bool, true, false, not, List, [], ◌∷◌, ◌++◌, map, Text, codes, text_eq,
  is_empty_text, Option, none, some, Map, lookup, ltb, if◌then◌else◌, ◌&&◌, ◌||◌, ℤ, pos, negsuc,
  int_eq, Result, ok, err, ◌>>=◌, ◌>>◌,
}
use cool_admin_go_next.Auth.Decimal.{format_uint, parse_uint}
use cool_admin_go_next.Auth.Session.{
  Kind, is_admin, is_app, Principal, Snapshot, AuthError, undecodable, unsupported_schema,
  other_key, empty_field, invalid_field, missing_fields, admin_fields, invalid_kind, err_expired,
  require, members, validate_snapshot,
}

-- An array that holds a null reads it as an empty text. `other` is any value that fits no field:
-- one of another type, and a number that is no int64.
pub data JsonValue : Type 0 where
  null : JsonValue
  text : Text → JsonValue
  number : ℤ → JsonValue
  texts : List Text → JsonValue
  other : JsonValue

abbrev pub Document : Type 0
Document = Map JsonValue

pub record WireSession : Type 0 where
  pub schema_version : ℤ
  pub session_id : Text
  pub subject : Kind
  pub user_id : Text
  pub username : Option Text
  pub role_ids : Option (List Text)
  pub password_v : Option ℤ
  pub access_jti : Text
  pub refresh_jti : Text
  pub expires_at : ℤ

abbrev pub schema_version : ℤ
schema_version = pos 1

abbrev pub millisecond : ℕ
millisecond = 1000000

-- A pointer that is nil is omitted.
abbrev pub field_of {ℓ} : {A : Type ℓ} → Text → (A → JsonValue) → Option A → Document → Document
field_of name write none rest = rest
field_of name write (some a) rest = (name, write a) ∷ rest

-- json.Marshal
unfoldable pub marshal : WireSession → Document
marshal wire =
    (codes "schemaVersion", number wire.schema_version)
    ∷ (codes "sessionId", text wire.session_id)
    ∷ (codes "subject", text wire.subject)
    ∷ (codes "userId", text wire.user_id)
    ∷ field_of (codes "username") text wire.username (
        field_of (codes "roleIds") texts wire.role_ids (
          field_of (codes "passwordV") number wire.password_v (
            (codes "accessJti", text wire.access_jti)
            ∷ (codes "refreshJti", text wire.refresh_jti)
            ∷ (codes "expiresAt", number wire.expires_at)
            ∷ [])))

-- A value read into a field, into a pointer too; null and a missing name leave it as it is.
abbrev pub read_text : Option JsonValue → Result AuthError (Option Text)
read_text none = ok none
read_text (some null) = ok none
read_text (some (text t)) = ok (some t)
read_text (some _) = err undecodable

abbrev pub read_number : Option JsonValue → Result AuthError (Option ℤ)
read_number none = ok none
read_number (some null) = ok none
read_number (some (number n)) = ok (some n)
read_number (some _) = err undecodable

abbrev pub read_texts : Option JsonValue → Result AuthError (Option (List Text))
read_texts none = ok none
read_texts (some null) = ok none
read_texts (some (texts ts)) = ok (some ts)
read_texts (some _) = err undecodable

abbrev pub or_zero {ℓ} : {A : Type ℓ} → A → Option A → A
or_zero zero_value none = zero_value
or_zero zero_value (some a) = a

-- json.Unmarshal
unfoldable pub unmarshal : Document → Result AuthError WireSession
unfolding lookup
unmarshal fields = do
  version ← read_number (lookup (codes "schemaVersion") fields)
  session_id ← read_text (lookup (codes "sessionId") fields)
  subject ← read_text (lookup (codes "subject") fields)
  user_id ← read_text (lookup (codes "userId") fields)
  username ← read_text (lookup (codes "username") fields)
  role_ids ← read_texts (lookup (codes "roleIds") fields)
  password_v ← read_number (lookup (codes "passwordV") fields)
  access_jti ← read_text (lookup (codes "accessJti") fields)
  refresh_jti ← read_text (lookup (codes "refreshJti") fields)
  expires_at ← read_number (lookup (codes "expiresAt") fields)
  ok record {
    schema_version = or_zero (pos 0) version;
    session_id = or_zero [] session_id;
    subject = or_zero [] subject;
    user_id = or_zero [] user_id;
    username = username;
    role_ids = role_ids;
    password_v = password_v;
    access_jti = or_zero [] access_jti;
    refresh_jti = or_zero [] refresh_jti;
    expires_at = or_zero (pos 0) expires_at;
  }

unfoldable pub to_wire : Snapshot → WireSession
unfolding is_admin format_uint
to_wire value =
    let p = value.principal in
    let admin = is_admin p.subject in
    record {
      schema_version = schema_version;
      session_id = value.session_id;
      subject = p.subject;
      user_id = format_uint p.user_id;
      username = if admin then some p.username else none;
      role_ids = if admin then some (map format_uint (members p.role_ids)) else none;
      password_v = if admin then some p.password_v else none;
      access_jti = value.access_jti;
      refresh_jti = value.refresh_jti;
      expires_at = pos (value.expires_at / millisecond);
    }

unfoldable pub encode : Snapshot → ℕ → Result AuthError Document
unfolding validate_snapshot marshal to_wire
encode value now = validate_snapshot value now >> ok (marshal (to_wire value))

-- A number in its one decimal form.
unfoldable pub parse_uint64 : Text → Result AuthError ℕ
unfolding parse_uint format_uint
parse_uint64 value = elim (parse_uint value) [
  | none ↦ if is_empty_text value then err empty_field else err invalid_field
  | some n ↦ if text_eq (format_uint n) value then ok n else err invalid_field
]

unfoldable pub parse_ids : List Text → Result AuthError (List ℕ)
unfolding parse_uint64
parse_ids [] = ok []
parse_ids (t ∷ ts) = do id ← parse_uint64 t; ids ← parse_ids ts; ok (id ∷ ids)

-- time.UnixMilli. A moment before 1970 is after no clock reading, and neither is 0.
abbrev pub unix_milli : ℤ → ℕ
unix_milli (pos n) = n * millisecond
unix_milli (negsuc n) = 0

abbrev pub admin_principal :
    ℕ → Kind → Option Text → Option (List Text) → Option ℤ → Result AuthError Principal
admin_principal user_id subject (some username) (some encoded) (some password_v) = do
  ids ← parse_ids encoded
  ok record {
    subject = subject;
    user_id = user_id;
    username = username;
    role_ids = some ids;
    password_v = password_v;
  }
admin_principal user_id subject _ _ _ = err missing_fields

abbrev pub has_field : Text → Document → Bool
has_field name fields = elim (lookup name fields) [ none ↦ false | some _ ↦ true ]

abbrev pub app_principal : ℕ → Kind → Document → Result AuthError Principal
app_principal user_id subject fields =
    if has_field (codes "username") fields
      || has_field (codes "roleIds") fields
      || has_field (codes "passwordV") fields
    then err admin_fields
    else ok record {
      subject = subject;
      user_id = user_id;
      username = [];
      role_ids = none;
      password_v = pos 0;
    }

unfoldable pub decode_principal : WireSession → Document → ℕ → Result AuthError Principal
unfolding is_admin is_app lookup parse_ids
decode_principal wire fields user_id =
    if is_admin wire.subject
    then admin_principal user_id wire.subject wire.username wire.role_ids wire.password_v
    else if is_app wire.subject
    then app_principal user_id wire.subject fields
    else err invalid_kind

unfoldable pub checked : Snapshot → ℕ → Result AuthError Snapshot
checked value now =
    require (ltb now value.expires_at) err_expired >> validate_snapshot value now >> ok value

unfoldable pub decode_wire : WireSession → Document → Text → Text → ℕ → Result AuthError Snapshot
unfolding parse_uint64 decode_principal checked
decode_wire wire fields expected_key prefix now =
    require (int_eq wire.schema_version schema_version) unsupported_schema
    >> require (is_empty_text expected_key || text_eq expected_key (prefix ++ wire.session_id))
        other_key
    >> (do
      user_id ← parse_uint64 wire.user_id
      principal ← decode_principal wire fields user_id
      checked
          (record {
            session_id = wire.session_id;
            principal = principal;
            access_jti = wire.access_jti;
            refresh_jti = wire.refresh_jti;
            expires_at = unix_milli wire.expires_at;
          })
          now)

unfoldable pub decode : Option Document → Text → Text → ℕ → Result AuthError Snapshot
unfolding unmarshal decode_wire
decode none expected_key prefix now = err undecodable
decode (some fields) expected_key prefix now =
    unmarshal fields >>= λ wire. decode_wire wire fields expected_key prefix now
