-- ===== src/Outbox/MessageId.antt =====
-- Message ids (cool-next/outbox/outbox.go): UUIDv7 in lower-case text. `validMessageID` of the store
-- is in `Record`.
use cool_admin_go_next.Common.{
  ℕ, suc, ◌+◌, ◌-◌, ◌/◌, ◌%◌, ◌^◌, ◌≤◌, ◌<◌, ◌≡◌, refl, subst, ◌⊎◌, inl, inr, Bool, true, ◌&&◌,
  ◌||◌, not, List, [], ◌∷◌, Text, Option, none, some, arith, ltb, leb, ◌==◌, if◌then◌else◌, between,
  length, get_or, Result, ok, err,
}
use cool_admin_go_next.Outbox.Record.{is_hex, valid_message_id, hex_but_dashes}

pub data IdError : Type 0 where
  bad_uuid bad_variant upper_case : IdError
  timestamp_out_of_range no_random : IdError

abbrev pub max_uuid_timestamp : ℕ
max_uuid_timestamp = 2 ^ 48 - 1

-- hex.Encode: two lower-case digits for each byte.
unfoldable pub digit : ℕ → ℕ
digit n = if ltb n 10 then n + b'0' else n + 87

abbrev encode : List ℕ → Text
encode [] = []
encode (b ∷ bs) = digit (b / 16) ∷ digit (b % 16) ∷ encode bs

-- The sixteen bytes: `b & 0x0f | 0x70` and `b & 0x3f | 0x80` join disjoint bits.
abbrev uuid_bytes : ℕ → (ℕ → ℕ) → List ℕ
uuid_bytes t random =
    t / 2 ^ 40 % 256
    ∷ t / 2 ^ 32 % 256
    ∷ t / 2 ^ 24 % 256
    ∷ t / 2 ^ 16 % 256
    ∷ t / 2 ^ 8 % 256
    ∷ t % 256
    ∷ (random 0 % 16 + 0x70)
    ∷ random 1
    ∷ (random 2 % 64 + 0x80)
    ∷ random 3
    ∷ random 4
    ∷ random 5
    ∷ random 6
    ∷ random 7
    ∷ random 8
    ∷ random 9
    ∷ []

-- The text: the digits of the bytes, with a dash after bytes 4, 6, 8 and 10.
abbrev dashed : Text → Text
dashed (a ∷ b ∷ c ∷ d ∷ e ∷ f ∷ g ∷ h ∷ i ∷ j ∷ k ∷ l ∷ m ∷ n ∷ o ∷ p ∷ q ∷ r ∷ s ∷ t ∷ rest) =
    a ∷ b ∷ c ∷ d ∷ e ∷ f ∷ g ∷ h ∷ b'-' ∷ i ∷ j ∷ k ∷ l ∷ b'-' ∷ m ∷ n ∷ o ∷ p ∷ b'-' ∷ q ∷ r ∷ s
    ∷ t ∷ b'-' ∷ rest
dashed s = s

-- `milliseconds` is `none` before the epoch; the random source gives ten bytes or fails.
unfoldable pub new_message_id : Option ℕ → Option (ℕ → ℕ) → Result IdError Text
new_message_id none random = err timestamp_out_of_range
new_message_id (some t) random =
    if ltb max_uuid_timestamp t then err timestamp_out_of_range else elim random [
      | none ↦ err no_random
      | some bytes ↦ ok (dashed (encode (uuid_bytes t bytes)))
    ]

-- The loop of `checkMessageID`: a dash passes wherever it stands.
unfoldable pub check_characters : Text → Result IdError (Unit {0})
check_characters [] = ok tt
check_characters (c ∷ s) =
    let rest = check_characters s in
    if c == b'-'
    then rest
    else if between b'A' b'F' c
    then err upper_case
    else if is_hex c
    then rest
    else err bad_uuid

unfoldable pub check_message_id : Text → Result IdError (Unit {0})
check_message_id text =
    if not (length text == 36)
      || not (get_or text 8 0 == b'-')
      || not (get_or text 13 0 == b'-')
      || not (get_or text 18 0 == b'-')
      || not (get_or text 23 0 == b'-')
      || not (get_or text 14 0 == b'7')
    then err bad_uuid
    else if ltb (get_or text 19 0) b'8' || ltb b'b' (get_or text 19 0)
    then err bad_variant
    else check_characters text

digit-is_hex : (n : ℕ) → n < 16 → is_hex (digit n) ≡ true
unfolding digit
digit-is_hex n h = ground arith

abbrev AllBytes : (ℕ → ℕ) → Type 0
AllBytes random = (i : ℕ) → random i < 256

-- Both loops pass over the two digits of a byte.
byte_step :
    (b i : ℕ) (s : Text)
    → b < 256
    → hex_but_dashes (suc (suc i)) s ≡ true
    → hex_but_dashes i (digit (b / 16) ∷ digit (b % 16) ∷ s) ≡ true
unfolding hex_but_dashes
byte_step b i s h rest = ground (arith, digit-is_hex (b / 16), digit-is_hex (b % 16))

digit_passes :
    (n : ℕ) (s : Text)
    → n < 16
    → check_characters s ≡ ok tt
    → check_characters (digit n ∷ s) ≡ ok tt
unfolding digit check_characters
digit_passes n s h rest = ground arith

byte_passes :
    (b : ℕ) (s : Text)
    → b < 256
    → check_characters s ≡ ok tt
    → check_characters (digit (b / 16) ∷ digit (b % 16) ∷ s) ≡ ok tt
byte_passes b s h rest =
    digit_passes (b / 16) (digit (b % 16) ∷ s) (omega arith)
      (digit_passes (b % 16) s (omega arith) rest)

variant_digit : (n : ℕ) → 8 ≤ n → n < 12 → (leb b'8' (digit n) ≡ true) × (leb (digit n) b'b' ≡ true)
unfolding digit
variant_digit n h k = (ground arith, ground arith)

version_digit : (r : ℕ) → digit ((r % 16 + 112) / 16) ≡ b'7'
version_digit r = let e : (r % 16 + 112) / 16 ≡ 7 = omega arith in rw e (unfold digit in refl)

dash_step :
    (i : ℕ) (s : Text)
    → (i == 8 || i == 13 || i == 18 || i == 23) ≡ true
    → hex_but_dashes (suc i) s ≡ true
    → hex_but_dashes i (b'-' ∷ s) ≡ true
unfolding hex_but_dashes
dash_step i s h rest = ground arith

passes_end : check_characters [] ≡ ok tt
unfolding check_characters
passes_end = refl

hex_end : hex_but_dashes 36 [] ≡ true
unfolding hex_but_dashes
hex_end = refl

dash_passes : (s : Text) → check_characters s ≡ ok tt → check_characters (b'-' ∷ s) ≡ ok tt
unfolding check_characters
dash_passes s h = h

abbrev dash_place : ℕ → Bool
dash_place i = i == 8 || i == 13 || i == 18 || i == 23

abbrev DashesFrom : ℕ → Text → Type 0
DashesFrom i s = (j : ℕ) → dash_place (i + j) ≡ true → get_or s j 0 ≡ b'-'

dashes_next : (i c : ℕ) (s : Text) → DashesFrom i (c ∷ s) → DashesFrom (suc i) s
dashes_next i c s dashes j place =
    let same : suc i + j ≡ i + suc j = omega arith in
    dashes (suc j) (subst (λ k. dash_place k ≡ true) same place)

hex-passes :
    (i : ℕ) (s : Text) → hex_but_dashes i s ≡ true → DashesFrom i s → check_characters s ≡ ok tt
unfolding hex_but_dashes check_characters
hex-passes i [] h dashes = refl
hex-passes i (c ∷ s) h dashes =
    let later : hex_but_dashes (suc i) s ≡ true = ground arith in
    let rest = hex-passes (suc i) s later (dashes_next i c s dashes) in
    let here : dash_place i ≡ true → c ≡ b'-' = (λ place.
      let same : i ≡ i + 0 = omega arith in
      dashes 0 (subst (λ k. dash_place k ≡ true) same place)) in
    ground arith

dashes_of :
    (s : Text)
    → get_or s 8 0 ≡ b'-'
    → get_or s 13 0 ≡ b'-'
    → get_or s 18 0 ≡ b'-'
    → get_or s 23 0 ≡ b'-'
    → DashesFrom 0 s
dashes_of s a b c d j place =
    let which : (j ≡ 8) ⊎ ((j ≡ 13) ⊎ ((j ≡ 18) ⊎ (j ≡ 23))) = ground arith in
    elim which [
      | inl e ↦ rw e a
      | inr (inl e) ↦ rw e b
      | inr (inr (inl e)) ↦ rw e c
      | inr (inr (inr e)) ↦ rw e d
    ]

-- A message id that the store accepts passes the check that the outbox makes of ids.
pub valid_message_id-checked :
    (id : Text) → valid_message_id id ≡ true → check_message_id id ≡ ok tt
unfolding valid_message_id check_message_id
valid_message_id-checked id h =
    let eight : get_or id 8 0 ≡ b'-' = ground arith in
    let thirteen : get_or id 13 0 ≡ b'-' = ground arith in
    let eighteen : get_or id 18 0 ≡ b'-' = ground arith in
    let last : get_or id 23 0 ≡ b'-' = ground arith in
    let loop : hex_but_dashes 0 id ≡ true = ground arith in
    let passes = hex-passes 0 id loop (dashes_of id eight thirteen eighteen last) in ground arith

valid_rest :
    {a b c d : Bool} → a ≡ true → b ≡ true → c ≡ true → d ≡ true → (a && b && c && d) ≡ true
valid_rest ea eb ec ed = ground arith

module _ (t : ℕ) (random : ℕ → ℕ) (small : AllBytes random) where
  abbrev id : Text
  id = dashed (encode (uuid_bytes t random))

  fresh_hex : hex_but_dashes 0 id ≡ true
  fresh_hex = byte_step _ _ _ (omega arith) (
      byte_step _ _ _ (omega arith) (
        byte_step _ _ _ (omega arith) (
          byte_step _ _ _ (omega arith) (
            dash_step _ _ refl (
              byte_step _ _ _ (omega arith) (
                byte_step _ _ _ (omega arith) (
                  dash_step _ _ refl (
                    byte_step _ _ _ (omega arith) (
                      byte_step _ _ _ (small 1) (
                        dash_step _ _ refl (
                          byte_step _ _ _ (omega arith) (
                            byte_step _ _ _ (small 3) (
                              dash_step _ _ refl (
                                byte_step _ _ _ (small 4) (
                                  byte_step _ _ _ (small 5) (
                                    byte_step _ _ _ (small 6) (
                                      byte_step _ _ _ (small 7) (
                                        byte_step _ _ _ (small 8)
                                          (byte_step _ _ _ (small 9) hex_end)))))))))))))))))))

  fresh_valid : valid_message_id id ≡ true
  unfolding valid_message_id
  fresh_valid =
      let (low, high) = variant_digit ((random 2 % 64 + 128) / 16) (omega arith) (omega arith) in
      let version : digit ((random 0 % 16 + 112) / 16) == b'7' ≡ true =
        rw (version_digit (random 0)) refl in
      valid_rest version low high fresh_hex

-- Under a clock within the 48 bits of the format, and whatever the random bytes are, newMessageID
-- makes an id, which is valid for the store and passes the outbox's own check.
pub new_message_id-valid :
    (t : ℕ) (random : ℕ → ℕ)
    → t ≤ max_uuid_timestamp
    → AllBytes random
    → (made : Text) × (new_message_id (some t) (some random) ≡ ok made)
      × (valid_message_id made ≡ true)
      × (check_message_id made ≡ ok tt)
unfolding new_message_id
new_message_id-valid t random late small =
    let valid = fresh_valid t random small in
    (id t random small, ground arith, valid, valid_message_id-checked (id t random small) valid)
