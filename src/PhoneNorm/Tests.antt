-- ===== src/PhoneNorm/Tests.antt =====
-- A phone number with the ASCII digits.
use ai_wa_chat_agent_be.Prelude.{ℕ, ◌≤◌, ◌≡◌, refl, Bool, true, false, ◌&&◌, some, arith, leb}
use ai_wa_chat_agent_be.Prelude.Text.{
  codes, is_space, lower, lower_code, begins_with, strip, lstrip, rstrip, lookup_text, text_eq,
}
use ai_wa_chat_agent_be.PhoneNorm.{
  normalize_e164, normalize_digits, plus_digits, national_digits, country_code, strip_prefix,
  lstrip_zeros,
}
use ai_wa_chat_agent_be.PhoneNorm.Canonical.{IsE164, normalize_e164_idem}

abbrev ascii_digit : ℕ → Bool
ascii_digit c = leb b'0' c && leb c b'9'

ascii_digit-ink : (c : ℕ) → ascii_digit c ≡ true → is_space c ≡ false
unfolding is_space
ascii_digit-ink c h = ground arith

ascii_digit-all : (c : ℕ) → b'0' ≤ c → c ≤ b'9' → ascii_digit c ≡ true
ascii_digit-all c lo hi = ground arith

local_number :
    normalize_e164 ascii_digit (codes "gb") (some (codes " 07700 900-123"))
    ≡ some (codes "+447700900123")
unfolding normalize_e164 normalize_digits plus_digits national_digits country_code strip_prefix
    lstrip_zeros lower lower_code begins_with strip lstrip rstrip is_space lookup_text text_eq
local_number = refl

normalize_e164_idem_example :
    IsE164 ascii_digit (codes "+447700900123")
    × (normalize_e164 ascii_digit (codes "US") (some (codes "+447700900123"))
        ≡ some (codes "+447700900123"))
normalize_e164_idem_example =
    normalize_e164_idem ascii_digit refl ascii_digit-ink ascii_digit-all (codes "gb") (codes "US")
      (some (codes " 07700 900-123")) (codes "+447700900123") local_number
