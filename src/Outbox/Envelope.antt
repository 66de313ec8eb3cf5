-- ===== src/Outbox/Envelope.antt =====
-- Envelopes (cool-next/outbox/outbox.go): `Restore` and the checks of its parts. `valid` is
-- json.Valid. The headers are visited in the order of the list; Go's order is any.
use cool_admin_go_next.Common.{
  ℕ, Bool, true, not, List, [], ◌∷◌, ◌++◌, Text, codes, Option, none, some, Map, lookup, Result, ok,
  err, map, any, ◌==◌, ◌&&◌, ◌||◌, if◌then◌else◌, text_eq, is_empty_text, trim_space, is_control,
  is_space, lower,
}
use cool_admin_go_next.Outbox.MessageId.{IdError, check_message_id}

pub record Envelope : Type 0 where
  pub message_id : Text
  pub topic : Text
  pub message_type : Text
  pub version : ℕ
  pub key : Option Text
  pub payload : Text
  pub headers : Map Text

pub data EnvelopeError : Type 0 where
  bad_id : IdError → EnvelopeError
  bad_text bad_version bad_key bad_payload : EnvelopeError
  bad_header_name unknown_header bad_header_value duplicate_header : EnvelopeError
  wrong_topic wrong_type unsupported_version : EnvelopeError

abbrev pub allowed_headers : List Text
allowed_headers =
    codes "content-type" ∷ codes "traceparent" ∷ codes "tracestate" ∷ codes "x-trace-id" ∷ []

-- strings.TrimSpace(value) == value, of a text that is not empty.
abbrev pub is_trimmed : Text → Bool
is_trimmed value = not (is_empty_text value) && text_eq (trim_space value) value

abbrev pub check_text : Text → Bool
check_text value = is_trimmed value && not (any (λ c. is_control c || is_space c) value)

abbrev pub is_line_end : ℕ → Bool
is_line_end c = c == 13 || c == 10

abbrev pub check_key : Text → Bool
check_key value = is_trimmed value && not (any is_line_end value)

abbrev pub check_optional_key : Option Text → Bool
check_optional_key none = true
check_optional_key (some key) = check_key key

abbrev pub header_name : Text → Result EnvelopeError Text
header_name name =
    if not (is_trimmed name)
    then err bad_header_name
    else let normalized = map lower name in
      if any (λ h. text_eq h normalized) allowed_headers then ok normalized else err unknown_header

abbrev pub valid_header_value : Text → Bool
valid_header_value value = not (any is_line_end value) && not (any is_control value)

abbrev pub add_header : Text → Text → Option Text → Map Text → Result EnvelopeError (Map Text)
add_header name value none result = ok (result ++ (name, value) ∷ [])
add_header name value (some _) result = err duplicate_header

-- One turn of the loop of `cleanHeaders`.
abbrev pub clean_header :
    Result EnvelopeError Text → Text → Map Text → Result EnvelopeError (Map Text)
clean_header (err e) value result = err e
clean_header (ok name) value result =
    if not (valid_header_value value)
    then err bad_header_value
    else add_header name value (lookup name result) result

abbrev pub and_then :
    {A B : Type 0} → Result EnvelopeError A → (A → Result EnvelopeError B) → Result EnvelopeError B
and_then (err e) f = err e
and_then (ok a) f = f a

unfoldable pub clean_headers_from : Map Text → Map Text → Result EnvelopeError (Map Text)
clean_headers_from [] result = ok result
clean_headers_from ((name, value) ∷ values) result =
    and_then (clean_header (header_name name) value result) (clean_headers_from values)

unfoldable pub clean_headers : Map Text → Result EnvelopeError (Map Text)
unfolding clean_headers_from
clean_headers values = clean_headers_from values []

abbrev pub from_id :
    {A : Type 0} → Result IdError (Unit {0}) → Result EnvelopeError A → Result EnvelopeError A
from_id (err e) rest = err (bad_id e)
from_id (ok _) rest = rest

module _ (valid : Text → Bool) where
  unfoldable pub new_envelope : Envelope → Result EnvelopeError Envelope
  new_envelope e =
      from_id (check_message_id e.message_id)
        (if e.version == 0 || not (valid e.payload) then err bad_payload else ok e)

  unfoldable pub restore : Envelope → Result EnvelopeError Envelope
  unfolding clean_headers new_envelope
  restore e = from_id (check_message_id e.message_id) (
      if not (check_text e.topic)
      then err bad_text
      else if not (check_text e.message_type)
      then err bad_text
      else if e.version == 0
      then err bad_version
      else if not (check_optional_key e.key)
      then err bad_key
      else if not (valid e.payload)
      then err bad_payload
      else and_then (clean_headers e.headers)
          (λ headers. new_envelope (record e { headers = headers })))
