-- ===== src/LeadImport/Sheet.antt =====
-- app/services/lead_import.py, read_csv_rows: the checks of an uploaded file. What `csv.DictReader` makes
-- of the decoded text is a part of the upload, and so is whether it decodes.
use ai_wa_chat_agent_be.Prelude.{
  ℕ, ◌*◌, ◌⊎◌, inl, inr, Bool, not, ◌&&◌, ◌||◌, Option, none, some, List, [], ◌∷◌, map,
  if◌then◌else◌, ◌==◌, ltb, any, length, select, max,
}
use ai_wa_chat_agent_be.Prelude.Text.{
  Text, codes, text_eq, is_empty, or_text, is_one_of, begins_with, lower, strip,
}
use ai_wa_chat_agent_be.LeadImport.Fields.{Row}

pub record Sheet : Type 0 where
  pub fieldnames : List Text
  pub lines : List Row

pub record Upload : Type 0 where
  pub size : ℕ
  pub filename : Option Text
  pub content_type : Option Text
  pub sheet : Option Sheet

pub data Refusal : Type 0 where
  too_large empty_file not_csv bad_content_type not_utf8 no_header no_phone : Refusal
  too_many_rows illegal_operator : Refusal

-- `text[::-1].startswith(suffix[::-1])`, as `endswith`
abbrev ends_with : Text → Text → Bool
ends_with suffix [] = is_empty suffix
ends_with suffix (c ∷ cs) = text_eq suffix (c ∷ cs) || ends_with suffix cs

abbrev lstrip_bom : Text → Text
lstrip_bom [] = []
lstrip_bom (c ∷ cs) = let rest = lstrip_bom cs in if c == 0xfeff then rest else c ∷ cs

unfoldable pub normalize_header : Text → Text
normalize_header h = map (λ c. if c == b' ' then b'_' else c) (lower (lstrip_bom (strip h)))

abbrev content_types : List Text
content_types =
    codes "text/csv"
    ∷ codes "application/csv"
    ∷ codes "application/vnd.ms-excel"
    ∷ codes "application/octet-stream"
    ∷ codes "text/plain"
    ∷ []

unfoldable pub normalize_line : Row → Row
normalize_line line =
    map (λ (kv : Text × Text). (normalize_header kv.0, strip kv.1))
      (select (λ kv. not (is_empty kv.0)) line)

abbrev headers : Sheet → List Text
headers s = map normalize_header (select (λ h. not (is_empty h)) s.fieldnames)

unfoldable pub read_sheet : ℕ → Sheet → Refusal ⊎ List Row
read_sheet max_rows s =
    if ltb 0 (length s.fieldnames)
    then if is_one_of (codes "phone") (headers s)
      then if ltb (max 1 max_rows) (length s.lines)
        then inl too_many_rows
        else inr (map normalize_line s.lines)
      else inl no_phone
    else inl no_header

unfoldable pub read_csv_rows : ℕ → ℕ → Upload → Refusal ⊎ List Row
read_csv_rows max_mb max_rows u =
    let filename = lower (or_text u.filename []) in
    let content_type = lower (or_text u.content_type []) in
    if ltb (max 1 max_mb * 1024 * 1024) u.size
    then inl too_large
    else if u.size == 0
    then inl empty_file
    else if not (is_empty filename) && not (ends_with (codes ".csv") filename)
    then inl not_csv
    else if not (is_empty content_type) && not (is_one_of content_type content_types)
    then inl bad_content_type
    else elim u.sheet [ none ↦ inl not_utf8 | some s ↦ read_sheet max_rows s ]

-- reject_mongo_operators of a row: a column whose header begins with a dollar sign
unfoldable pub has_operator : Row → Bool
has_operator row = any (λ (kv : Text × Text). begins_with (codes "$") kv.0) row
