-- ===== src/PhoneNorm.antt =====
-- app/services/phone_norm.py: phone numbers in E.164 form. What `\d` of a regular expression finds is a
-- parameter, since it is more than the ASCII digits; upper() and lower() are on the ASCII letters.
pub mod Canonical
mod Tests
use ai_wa_chat_agent_be.Prelude.{
  ℕ, suc, ◌-◌, Bool, true, false, not, ◌&&◌, ◌||◌, Option, none, some, List, [], ◌∷◌, ◌++◌, map,
  if◌then◌else◌, leb, ltb, ◌==◌, length, select, drop, or_else,
}
use ai_wa_chat_agent_be.Prelude.Text.{
  Text, codes, text_eq, is_empty, lookup_text, begins_with, lower, strip,
}

abbrev upper_code : ℕ → ℕ
upper_code c = if leb b'a' c && leb c b'z' then c - 32 else c

-- _DEFAULT_REGION_CC, and "44" for a region that it lacks
unfoldable pub country_code : Text → Text
country_code region =
    or_else
      (lookup_text (map upper_code region) (
        (codes "GB", codes "44")
        ∷ (codes "UK", codes "44")
        ∷ (codes "US", codes "1")
        ∷ (codes "CA", codes "1")
        ∷ []))
      (codes "44")

-- what follows the first `:`
unfoldable pub after_colon : Text → Text
after_colon [] = []
after_colon (c ∷ cs) = let rest = after_colon cs in if c == b':' then cs else rest

-- Whether the text is `whatsapp:` and something, in any case, and what then counts.
unfoldable pub strip_prefix : Text → Text
strip_prefix s = if begins_with (codes "whatsapp:") (lower s) then strip (after_colon s) else s

unfoldable pub lstrip_zeros : Text → Text
lstrip_zeros [] = []
lstrip_zeros (c ∷ cs) = let rest = lstrip_zeros cs in if c == b'0' then rest else c ∷ cs

-- The last step of both branches.
unfoldable pub plus_digits : Text → Option Text
plus_digits digits =
    if ltb (length digits) 8 || ltb 15 (length digits) then none else some (b'+' ∷ digits)

-- A number without a plus: a trunk prefix, or a short number, takes the code of the country.
unfoldable pub national_digits : Text → Text → Text
national_digits cc digits =
    if begins_with (codes "0") digits
    then cc ++ drop 1 digits
    else if not (begins_with cc digits) && leb (length digits) 10
    then cc ++ lstrip_zeros digits
    else digits

module _ (is_digit : ℕ → Bool) where
  -- `_NON_DIGIT_PLUS.sub("", s)` and `re.sub(r"\D", "", s)`
  abbrev pub only_digits_plus : Text → Text
  only_digits_plus s = select (λ c. is_digit c || c == b'+') s

  abbrev pub only_digits : Text → Text
  only_digits s = select is_digit s

  unfoldable pub normalize_digits : Text → Text → Option Text
  normalize_digits region s =
      if is_empty s
      then none
      else if begins_with (codes "+") s
      then plus_digits (only_digits s)
      else if is_empty (only_digits s)
      then none
      else plus_digits (national_digits (country_code region) (only_digits s))

  unfoldable pub normalize_e164 : Text → Option Text → Option Text
  normalize_e164 region none = none
  normalize_e164 region (some raw) =
      let s = strip raw in
      if is_empty s then none else normalize_digits region (only_digits_plus (strip_prefix s))
