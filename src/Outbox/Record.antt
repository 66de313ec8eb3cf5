-- ===== src/Outbox/Record.antt =====
-- The persisted message (cool-next/outbox/store/store.go and the row types of database.go).
-- Times are microseconds since an epoch; a SQL NULL is `none`.
use cool_admin_go_next.Common.{
  ℕ, suc, Bool, true, false, ◌&&◌, ◌||◌, not, [], ◌∷◌, Option, none, some, Text, leb, ◌==◌,
  if◌then◌else◌, between, length, get_or, trim_space, is_empty_text, Result, ok, err,
}

-- The column is a text, so a row may hold one that no constant names.
pub data Status : Type 0 where
  pending retry leased sent dead : Status
  unknown : Text → Status

abbrev pub valid_status : Status → Bool
valid_status (unknown _) = false
valid_status _ = true

pub record Row : Type 0 where
  pub message_id : Text
  pub topic : Text
  pub message_type : Text
  pub message_version : ℕ
  pub message_key : Option Text
  pub payload : Text
  pub headers : Text
  pub status : Status
  pub attempts : ℕ
  pub available_at : ℕ
  pub lease_owner : Option Text
  pub claim_token : Option Text
  pub lease_expires_at : Option ℕ
  pub last_error : Option Text
  pub create_time : ℕ
  pub update_time : ℕ
  pub sent_at : Option ℕ

-- What the enqueuer hands over: the columns that `INSERT` is given. `claim_token` of a claimed
-- record is a plain text, empty for NULL.
pub record Message : Type 0 where
  pub message_id : Text
  pub topic : Text
  pub message_type : Text
  pub message_version : ℕ
  pub message_key : Option Text
  pub payload : Text
  pub headers : Text

pub record Claimed : Type 0 where
  pub row : Row
  pub claim_token : Text

pub record Metadata : Type 0 where
  pub message_id : Text
  pub topic : Text
  pub message_type : Text
  pub message_version : ℕ
  pub status : Status
  pub attempts : ℕ
  pub available_at : ℕ
  pub lease_expires_at : Option ℕ
  pub last_error : Option Text
  pub create_time : ℕ
  pub update_time : ℕ
  pub sent_at : Option ℕ

pub data StoreError : Type 0 where
  claim_lost not_found replay_rejected replay_conflict : StoreError
  invalid_argument : StoreError  -- rejected before any statement runs
  invalid_message : StoreError  -- NewRecord
  invalid_row : StoreError  -- an identifier or a status that the code does not know
  token_missed : StoreError  -- a claimed row that is not read back
  broken_invariant : ℕ → StoreError  -- an impossible number of affected rows
  duplicate_key : StoreError  -- the primary key
  retries_exhausted : StoreError
  database : StoreError  -- any other failure of a statement

abbrev pub is_hex : ℕ → Bool
is_hex c = between b'0' b'9' c || between b'a' b'f' c

-- The loop of `validMessageID` from position `index` on.
unfoldable pub hex_but_dashes : ℕ → Text → Bool
hex_but_dashes index [] = true
hex_but_dashes index (c ∷ s) =
    (index == 8 || index == 13 || index == 18 || index == 23 || is_hex c)
    && hex_but_dashes (suc index) s

-- `len` counts bytes; a text with a character beyond ASCII fails the loop.
unfoldable pub valid_message_id : Text → Bool
unfolding hex_but_dashes
valid_message_id value =
    length value == 36
    && get_or value 8 0 == b'-'
    && get_or value 13 0 == b'-'
    && get_or value 18 0 == b'-'
    && get_or value 23 0 == b'-'
    && get_or value 14 0 == b'7'
    && leb b'8' (get_or value 19 0)
    && leb (get_or value 19 0) b'b'
    && hex_but_dashes 0 value

abbrev pub blank : Text → Bool
blank s = is_empty_text (trim_space s)

abbrev blank_key : Option Text → Bool
blank_key none = false
blank_key (some k) = blank k

-- `encoding/json`: `valid` is `json.Valid`, `object` tells whether `json.Unmarshal` into a
-- `map[string]string` succeeds with a map that is not nil.
module _ (valid object : Text → Bool) where
  unfoldable pub new_record : Message → Result StoreError Message
  unfolding valid_message_id trim_space
  new_record m =
      if not (valid_message_id m.message_id)
      then err invalid_message
      else if blank m.topic || blank m.message_type
      then err invalid_message
      else if m.message_version == 0 || not (valid m.payload) || not (object m.headers)
      then err invalid_message
      else if blank_key m.message_key
      then err invalid_message
      else ok m

abbrev pub token_text : Option Text → Text
token_text none = []
token_text (some t) = t

-- `storedRecord.toRecord`
unfoldable pub to_record : Row → Result StoreError Claimed
unfolding valid_message_id
to_record r =
    if not (valid_message_id r.message_id)
    then err invalid_row
    else if not (valid_status r.status)
    then err invalid_row
    else ok (record { row = r; claim_token = token_text r.claim_token })

abbrev metadata_of : Row → Metadata
metadata_of r = record {
  message_id = r.message_id;
  topic = r.topic;
  message_type = r.message_type;
  message_version = r.message_version;
  status = r.status;
  attempts = r.attempts;
  available_at = r.available_at;
  lease_expires_at = r.lease_expires_at;
  last_error = r.last_error;
  create_time = r.create_time;
  update_time = r.update_time;
  sent_at = r.sent_at;
}

-- `storedMetadata.toMetadata`
unfoldable pub to_metadata : Row → Result StoreError Metadata
to_metadata r =
    if not (valid_message_id r.message_id)
    then err invalid_row
    else if not (valid_status r.status)
    then err invalid_row
    else ok (metadata_of r)
