-- ===== src/Auth/Decimal.antt =====
-- strconv.FormatUint and strconv.ParseUint in base 10, and `parseUint64` (cool-next/auth/store.go).
use cool_admin_go_next.Common.{
  ℕ, zero, suc, ◌+◌, ◌-◌, ◌*◌, ◌/◌, ◌%◌, ◌≤◌, ◌<◌, ◌≡◌, refl, ◌&&◌, true, false, [], ◌∷◌, Text,
  Option, none, some, between, ltb, ◌∙◌, arith,
}

abbrev pub uint64_mod : ℕ
uint64_mod = 0x1_0000_0000_0000_0000

-- The digits of `n` before the text `rest`, the last one first. A quotient by ten is smaller, so
-- `n` itself is fuel enough.
unfoldable pub format_from : ℕ → ℕ → Text → Text
format_from zero n rest = (b'0' + n) ∷ rest
format_from (suc fuel) n rest = elim (ltb n 10) [
  | true ↦ (b'0' + n) ∷ rest
  | false ↦ format_from fuel (n / 10) ((b'0' + n % 10) ∷ rest)
]

unfoldable pub format_uint : ℕ → Text
unfolding format_from
format_uint n = format_from n n []

unfoldable pub parse_from : ℕ → Text → Option ℕ
parse_from value [] = some value
parse_from value (c ∷ s) = elim (between b'0' b'9' c && ltb (value * 10 + (c - b'0')) uint64_mod) [
  | true ↦ parse_from (value * 10 + (c - b'0')) s
  | false ↦ none
]

unfoldable pub parse_uint : Text → Option ℕ
unfolding parse_from
parse_uint [] = none
parse_uint (c ∷ s) = parse_from 0 (c ∷ s)

parse_from-format_from :
    (fuel n : ℕ) (rest : Text)
    → n ≤ fuel
    → n < uint64_mod
    → parse_from 0 (format_from fuel n rest) ≡ parse_from n rest
unfolding parse_from format_from
parse_from-format_from zero n rest h b = ground arith
parse_from-format_from (suc fuel) n rest h b =
    ground (arith, parse_from-format_from fuel (n / 10) ((b'0' + n % 10) ∷ rest))

format_from-starts :
    (fuel n : ℕ) (rest : Text)
    → parse_uint (format_from fuel n rest) ≡ parse_from 0 (format_from fuel n rest)
unfolding parse_uint format_from
format_from-starts zero n rest = refl
format_from-starts (suc fuel) n rest =
    ground (arith, format_from-starts fuel (n / 10) ((b'0' + n % 10) ∷ rest))

-- A number below 2^64 is read back from its digits.
pub parse_uint-format_uint : (n : ℕ) → n < uint64_mod → parse_uint (format_uint n) ≡ some n
unfolding format_uint parse_from
parse_uint-format_uint n b =
    format_from-starts n n [] ∙ parse_from-format_from n n [] (omega arith) b

parse_from_bound :
    (s : Text) (value n : ℕ) → value < uint64_mod → parse_from value s ≡ some n → n < uint64_mod
unfolding parse_from
parse_from_bound [] value n b h = ground arith
parse_from_bound (c ∷ s) value n b h =
    ground (arith, parse_from_bound s (value * 10 + (c - b'0')) n)

pub parse_uint_bound : (s : Text) (n : ℕ) → parse_uint s ≡ some n → n < uint64_mod
unfolding parse_uint
parse_uint_bound [] n h = absurd (cc)
parse_uint_bound (c ∷ s) n h = parse_from_bound (c ∷ s) 0 n (omega arith) h
