-- ===== src/Auth/Examples.antt =====
-- Authentication at concrete inputs (cool-next/auth): an administrator, a session and its tokens.
mod Requests
use cool_admin_go_next.Common.{
  ℕ, Bool, true, false, List, [], ◌∷◌, ◌++◌, Text, codes, text_eq, Option, none, some, pos,
  if◌then◌else◌, Result, ok, err, ◌≡◌, refl, ltb, lookup, arith, trim_space, is_control, split,
  join, trim_char, keep, all, has_prefix, not, ◌&&◌, ◌==◌, ◌↔◌, ◌≢◌,
}
use cool_admin_go_next.Auth.Decimal.{format_uint, parse_uint}
use cool_admin_go_next.Auth.Session.{
  Principal, Snapshot, Context, live, admin_kind, AuthError, err_expired, validate_snapshot,
  is_admin, is_app, valid_identifier, validate_principal, validate_admin,
}
use cool_admin_go_next.Auth.Wire.{Document, encode, decode, marshal, to_wire, decode_wire, checked}
use cool_admin_go_next.Auth.Wire.RoundTrip.{stored, decode-encode}
use cool_admin_go_next.Auth.Store.{contains}
use cool_admin_go_next.Auth.Ids.{normalize_ids, validate_snapshot_ids}
use cool_admin_go_next.Auth.Ids.Order.{
  IsAscending, normalize_ids-normal, validate_snapshot_ids-same,
}
use cool_admin_go_next.Auth.Permission.{
  admin_path_prefix, derive_permission, remainder, valid_segment,
}
use cool_admin_go_next.Auth.Permission.Segments.{derive_permission-split}

abbrev pub alice : Principal
alice = record {
  subject = admin_kind;
  user_id = 7;
  username = codes "al";
  role_ids = some (12 ∷ []);
  password_v = pos 1;
}

abbrev pub first_session : Snapshot
first_session = record {
  session_id = codes "s";
  principal = alice;
  access_jti = codes "a";
  refresh_jti = codes "r";
  expires_at = 9_000_500;
}

abbrev content : Document
content = marshal (to_wire first_session)

first-encoded : encode first_session 5 ≡ ok content
unfolding encode
first-encoded = refl

-- Half a millisecond is cut off.
decode-encode_example :
    decode (some content) (codes "p" ++ first_session.session_id) (codes "p") 8_999_999 ≡ (
      if ltb 8_999_999 (stored first_session).expires_at
      then ok (stored first_session)
      else err err_expired)
decode-encode_example =
    decode-encode first_session 5 8_999_999 (codes "p") content (omega arith, (omega arith, tt))
      first-encoded

abbrev some_ids : List ℕ
some_ids = 3 ∷ 0 ∷ 1 ∷ 3 ∷ []

normal_ids : normalize_ids some_ids ≡ 1 ∷ 3 ∷ []
unfolding normalize_ids
normal_ids = refl

abbrev same_ids : List ℕ
same_ids = 1 ∷ 3 ∷ []

same_members : (id : ℕ) → id ≢ 0 → contains some_ids id ≡ contains same_ids id
same_members id nonzero = ground arith

normalize_ids-normal_example :
    IsAscending (normalize_ids some_ids)
    × ((id : ℕ) → contains (normalize_ids some_ids) id ≡ (not (id == 0) && contains some_ids id))
    × (normalize_ids some_ids ≡ normalize_ids same_ids)
normalize_ids-normal_example = normalize_ids-normal some_ids same_ids same_members

validate_snapshot_ids-same_example :
    (validate_snapshot_ids some_ids (1 ∷ 3 ∷ []) ≡ ok tt)
    ↔ ((id : ℕ) → id ≢ 0 → contains some_ids id ≡ contains (1 ∷ 3 ∷ []) id)
validate_snapshot_ids-same_example = validate_snapshot_ids-same some_ids (1 ∷ 3 ∷ [])

abbrev user_list : Text
user_list = codes "/admin/user/list/"

derived : derive_permission user_list false ≡ ok (codes "user:list")
unfolding derive_permission
derived = refl

comm_route : derive_permission (codes "/admin/comm/person") false ≡ ok []
unfolding derive_permission
comm_route = refl

derive_permission-split_example :
    ◌≡◌ {A = Bool} false false
    × (has_prefix user_list admin_path_prefix ≡ true)
    × (all valid_segment (split b'/' (remainder user_list)) ≡ true)
    × (split b':' (codes "user:list") ≡ split b'/' (remainder user_list))
derive_permission-split_example =
    derive_permission-split user_list (codes "user:list") false derived (λ h. cc)
