-- ===== src/Auth/Permission.antt =====
-- The permission of an admin route (cool-next/auth/perm.go): `DerivePermission`.
pub mod Segments
use cool_admin_go_next.Common.{
  ℕ, ◌==◌, Bool, true, false, not, List, [], ◌∷◌, ◌++◌, Text, codes, text_eq, has_prefix,
  drop_prefix, trim_char, split, join, is_empty_text, all, any, between, if◌then◌else◌, ◌&&◌, ◌||◌,
  Result, ok, err, ◌≡◌, ◌≢◌, refl, sym, subst, ap, ◌∙◌, All, Bool-cases, inl, inr, arith, &&_left,
  &&_right, ==_refl,
}

pub data PermissionError : Type 0 where
  no_permission invalid_segment : PermissionError

abbrev pub admin_path_prefix : Text
admin_path_prefix = codes "/admin/"

abbrev pub comm_path_segment : Text
comm_path_segment = codes "comm"

abbrev pub admin_dict_data_path : Text
admin_dict_data_path = codes "/admin/dict/info/data"

abbrev pub is_letter : ℕ → Bool
is_letter c = between b'a' b'z' c || between b'A' b'Z' c || c == b'_'

abbrev pub is_segment_char : ℕ → Bool
is_segment_char c = is_letter c || between b'0' b'9' c

-- The first character is no digit.
unfoldable pub valid_segment : Text → Bool
valid_segment [] = false
valid_segment (c ∷ s) = is_letter c && all is_segment_char s

-- A `comm` segment that is not the last one.
unfoldable pub has_comm : List Text → Bool
has_comm [] = false
has_comm (segment ∷ []) = false
has_comm (segment ∷ next ∷ segments) =
    text_eq segment comm_path_segment || has_comm (next ∷ segments)

abbrev pub permission_of : List Text → Result PermissionError Text
permission_of segments =
    if has_comm segments
    then ok []
    else if all valid_segment segments
    then ok (join b':' segments)
    else err invalid_segment

-- The path after the prefix, without the slashes around it.
unfoldable pub remainder : Text → Text
unfolding trim_char
remainder full_path = trim_char b'/' (drop_prefix full_path admin_path_prefix)

-- The permission of a route, empty for one that only asks for a login or for nothing.
unfoldable pub derive_permission : Text → Bool → Result PermissionError Text
unfolding remainder split has_comm valid_segment join
derive_permission full_path ignore_token =
    if ignore_token || not (has_prefix full_path admin_path_prefix)
    then ok []
    else if text_eq full_path admin_dict_data_path
    then ok []
    else if is_empty_text (remainder full_path)
    then err no_permission
    else permission_of (split b'/' (remainder full_path))
