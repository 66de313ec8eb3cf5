-- ===== src/Auth/Wire/RoundTrip.antt =====
-- What `encode` writes is what `decode` reads (cool-next/auth/store.go).
use cool_admin_go_next.Common.{
  ℕ, zero, suc, ◌*◌, ◌&&◌, ℤ, pos, negsuc, is_zero, is_empty_text, ◌/◌, ◌<◌, ◌≡◌, refl, sym, ap,
  subst, ◌∙◌, ◌||◌, ltb→lt, ok-left, ok-right, ok-bind, Bool, true, false, List, [], ◌∷◌, ◌++◌, map,
  Text, text_eq_refl, Option, none, some, ltb, if◌then◌else◌, ok, err, All, arith, Bool-cases, inl,
  inr,
}
use cool_admin_go_next.Auth.Decimal.{uint64_mod, format_uint, parse_uint-format_uint}
use cool_admin_go_next.Auth.Session.{
  Principal, Snapshot, err_expired, is_admin, is_app, members, validate_snapshot,
  validate_snapshot-parts, validate_snapshot-of_parts, validate_app, validate_admin,
  validate_principal, is_nil, require, admin_fields,
}
use cool_admin_go_next.Auth.Wire.{
  Document, WireSession, millisecond, marshal, unmarshal, to_wire, encode, parse_uint64, parse_ids,
  checked, decode_principal, decode_wire, decode,
}

pub parse_uint64-format_uint : (n : ℕ) → n < uint64_mod → parse_uint64 (format_uint n) ≡ ok n
unfolding parse_uint64
parse_uint64-format_uint n b =
    ground (arith, parse_uint-format_uint n b, text_eq_refl (format_uint n))

pub parse_ids-format_uint :
    (ids : List ℕ) → All (λ id. id < uint64_mod) ids → parse_ids (map format_uint ids) ≡ ok ids
unfolding parse_ids
parse_ids-format_uint [] h = refl
parse_ids-format_uint (id ∷ ids) h =
    rw (parse_uint64-format_uint id h.0, parse_ids-format_uint ids h.1) refl

-- What a session is after it was stored: its end is cut to milliseconds, and the role ids of an
-- administrator are a slice that is not nil.
abbrev pub stored_principal : Principal → Principal
stored_principal p = record p {
  role_ids = if is_admin p.subject then some (members p.role_ids) else p.role_ids;
}

abbrev pub stored : Snapshot → Snapshot
stored value = record value {
  principal = stored_principal value.principal;
  expires_at = value.expires_at / millisecond * millisecond;
}

-- Numbers that Go's uint64 holds.
abbrev pub IsMachine : Snapshot → Type 0
IsMachine value =
    (value.principal.user_id < uint64_mod)
    × All (λ id. id < uint64_mod) (members value.principal.role_ids)

unmarshal-marshal : (value : Snapshot) → unmarshal (marshal (to_wire value)) ≡ ok (to_wire value)
unfolding unmarshal marshal to_wire
unmarshal-marshal value = elim (Bool-cases (is_admin value.principal.subject)) [
  | inl e ↦ rw e refl
  | inr e ↦ rw e refl
]

-- The principal without the fields of an administrator.
abbrev plain : Principal → Principal
plain p = record p { username = []; role_ids = none; password_v = pos 0 }

validate_app-plain : (p : Principal) → validate_app p ≡ ok tt → p ≡ plain p
unfolding validate_app
validate_app-plain p h = go p.subject p.user_id p.username p.role_ids p.password_v h
  where
    go :
        (subject : Text) (user_id : ℕ) (username : Text) (role_ids : Option (List ℕ))
        (password_v : ℤ)
        (h : require (is_empty_text username && is_nil role_ids && is_zero password_v) admin_fields
          ≡ ok tt)
        → ◌≡◌ {A = Principal}
            (record {
              subject = subject;
              user_id = user_id;
              username = username;
              role_ids = role_ids;
              password_v = password_v;
            })
            (record {
              subject = subject;
              user_id = user_id;
              username = [];
              role_ids = none;
              password_v = pos 0;
            })
    go subject user_id [] none (pos zero) h = refl
    go subject user_id (_ ∷ _) _ _ h = absurd (cc)
    go subject user_id [] (some _) _ h = absurd (cc)
    go subject user_id [] none (pos (suc _)) h = absurd (cc)
    go subject user_id [] none (negsuc _) h = absurd (cc)

validate-app :
    (value : Snapshot) (now : ℕ)
    → validate_snapshot value now ≡ ok tt
    → is_admin value.principal.subject ≡ false
    → (is_app value.principal.subject ≡ true) × (validate_app value.principal ≡ ok tt)
unfolding validate_snapshot validate_principal
validate-app value now h e = ground arith

validate_principal-stored :
    (p : Principal) → validate_principal (stored_principal p) ≡ validate_principal p
unfolding validate_principal validate_admin validate_app
validate_principal-stored p = elim (Bool-cases (is_admin p.subject)) [
  | inl e ↦ rw e refl
  | inr e ↦ rw e refl
]

validate-stored :
    (value : Snapshot) (now now' : ℕ)
    → validate_snapshot value now ≡ ok tt
    → now' < (stored value).expires_at
    → validate_snapshot (stored value) now' ≡ ok tt
validate-stored value now now' h later =
    let parts = validate_snapshot-parts value now h in
    validate_snapshot-of_parts (stored value) now' parts.0 parts.1 later
      (validate_principal-stored value.principal ∙ parts.3)

decode_principal-to_wire :
    (value : Snapshot) (now : ℕ)
    → IsMachine value
    → validate_snapshot value now ≡ ok tt
    → decode_principal (to_wire value) (marshal (to_wire value)) value.principal.user_id
      ≡ ok (stored_principal value.principal)
unfolding decode_principal to_wire marshal
decode_principal-to_wire value now m h = elim (Bool-cases (is_admin value.principal.subject)) [
  | inl e ↦ rw (e, parse_ids-format_uint (members value.principal.role_ids) m.1) refl
  | inr e ↦
      let (app, fields) = validate-app value now h e in
      rw (e, app) (ap ok (sym (validate_app-plain value.principal fields)))
]

or_true : (b : Bool) → (b || true) ≡ true
or_true true = refl
or_true false = refl

checked-stored :
    (value : Snapshot) (now now' : ℕ)
    → validate_snapshot value now ≡ ok tt
    → checked (stored value) now'
      ≡ (if ltb now' (stored value).expires_at then ok (stored value) else err err_expired)
unfolding checked
checked-stored value now now' h = elim (Bool-cases (ltb now' (stored value).expires_at)) [
  | inl e ↦ rw (e, validate-stored value now now' h (ltb→lt now' (stored value).expires_at e)) refl
  | inr e ↦ rw e refl
]

decode_wire-to_wire :
    (value : Snapshot) (now now' : ℕ) (prefix : Text)
    → IsMachine value
    → validate_snapshot value now ≡ ok tt
    → decode_wire (to_wire value) (marshal (to_wire value)) (prefix ++ value.session_id) prefix now'
      ≡ checked (stored value) now'
unfolding decode_wire to_wire
decode_wire-to_wire value now now' prefix m h =
    rw
      (
        text_eq_refl (prefix ++ value.session_id),
        parse_uint64-format_uint value.principal.user_id m.0,
        decode_principal-to_wire value now m h,
      )
      (rw (or_true (is_empty_text (prefix ++ value.session_id))) refl)

-- A session that `encode` accepts is read back by `decode`, with its end cut to milliseconds, while
-- that end lies ahead, and is refused as expired from then on; the key is its own, and its numbers
-- are unsigned 64-bit ones.
pub decode-encode :
    (value : Snapshot) (now now' : ℕ) (prefix : Text) (content : Document)
    → IsMachine value
    → encode value now ≡ ok content
    → decode (some content) (prefix ++ value.session_id) prefix now'
      ≡ (if ltb now' (stored value).expires_at then ok (stored value) else err err_expired)
unfolding decode encode
decode-encode value now now' prefix content m h =
    let valid = ok-left (validate_snapshot value now) _ h in
    let same : ok (marshal (to_wire value)) ≡ ok content =
      ok-right (validate_snapshot value now) (ok (marshal (to_wire value))) h in
    let written : marshal (to_wire value) ≡ content = cc in
    rw (← written, unmarshal-marshal value)
      (decode_wire-to_wire value now now' prefix m valid ∙ checked-stored value now now' valid)

checked-valid :
    (value : Snapshot) (now : ℕ) {v : Snapshot}
    → checked value now ≡ ok v
    → validate_snapshot v now ≡ ok tt
unfolding checked
checked-valid value now {v} h =
    let valid = ok-left _ (ok value) h in
    let same : ok value ≡ ok v = ok-right _ (ok value) h in
    let returned : value ≡ v = cc in
    subst (λ s. validate_snapshot s now ≡ ok tt) returned (ok-right _ _ valid)

decode_wire-valid :
    (wire : WireSession) (fields : Document) (key prefix : Text) (now : ℕ) {v : Snapshot}
    → decode_wire wire fields key prefix now ≡ ok v
    → validate_snapshot v now ≡ ok tt
unfolding decode_wire
decode_wire-valid wire fields key prefix now h =
    let (user_id, _, h1) = ok-bind (parse_uint64 wire.user_id) _ (ok-right _ _ h) in
    let (principal, _, h2) = ok-bind (decode_principal wire fields user_id) _ h1 in
    checked-valid _ now h2

-- Whatever the stored content is, a session that `decode` returns passes every check of a session
-- at that moment: its identifiers, its principal, and that it has not expired.
decode-valid :
    (content : Option Document) (key prefix : Text) (now : ℕ) (value : Snapshot)
    → decode content key prefix now ≡ ok value
    → validate_snapshot value now ≡ ok tt
unfolding decode
decode-valid none key prefix now value h = absurd (cc)
decode-valid (some fields) key prefix now value h =
    let (wire, _, h1) = ok-bind (unmarshal fields) _ h in
    decode_wire-valid wire fields key prefix now h1
