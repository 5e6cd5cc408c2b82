-- ===== src/LeadImport/Fields.antt =====
-- app/services/lead_import.py: what a row of the file says. The texts of the errors are not modelled.
use ai_wa_chat_agent_be.Prelude.{
  ℕ, Bool, false, not, ◌&&◌, Option, none, some, List, [], ◌∷◌, ◌++◌, map, if◌then◌else◌, ◌==◌, leb,
  take, drop, length, select, any,
}
use ai_wa_chat_agent_be.Prelude.Text.{Text, codes, text_eq, is_empty, begins_with, lower, strip}
use ai_wa_chat_agent_be.PhoneNorm.{normalize_e164}

-- A row of `normalized`: the columns by their headers, in the order of the file.
abbrev pub Row : Type 0
Row = List (Text × Text)

-- `row.get(key) or ""`; of two columns with one header, the later counts.
unfoldable pub column : Text → Row → Text
column key [] = []
column key ((k, v) ∷ row) =
    let rest = column key row in
    if any (λ (kv : Text × Text). text_eq kv.0 key) row
    then rest
    else if text_eq k key
    then v
    else []

-- What Python's libraries answer: `\d` of a regular expression, `str.isdigit`, `datetime.fromisoformat`
-- (UTC where it names no zone, and `none` for a ValueError), and the regular expression of
-- `is_valid_email`.
pub record Readers : Type 0 where
  pub matches_digit : ℕ → Bool
  pub is_digit : ℕ → Bool
  pub from_iso_format : Text → Option ℕ
  pub matches_email : Text → Bool

abbrev ends_with_z : Text → Bool
ends_with_z [] = false
ends_with_z (c ∷ []) = c == b'Z'
ends_with_z (c ∷ cs) = ends_with_z cs

abbrev before_last : Text → Text
before_last [] = []
before_last (c ∷ []) = []
before_last (c ∷ cs) = c ∷ before_last cs

-- `raw.split(",")`
unfoldable pub split_commas : Text → List Text
split_commas [] = [] ∷ []
split_commas (c ∷ cs) =
    let rest = split_commas cs in
    if c == b','
    then [] ∷ rest
    else elim rest [ [] ↦ (c ∷ []) ∷ [] | part ∷ parts ↦ (c ∷ part) ∷ parts ]

unfoldable pub parse_tags : Text → List Text
parse_tags raw =
    take 50 (select (λ t. not (is_empty t)) (map (λ p. take 40 (strip p)) (split_commas raw)))

module _ (r : Readers) where
  unfoldable pub parse_dt : Text → Option ℕ
  parse_dt raw =
      let text = strip raw in
      if is_empty text
      then none
      else r.from_iso_format (if ends_with_z text then before_last text ++ codes "+00:00" else text)

  -- the region is the setting's
  unfoldable pub validate_phone : Text → Text → Option Text
  validate_phone region raw = elim (normalize_e164 r.matches_digit region (some (strip raw))) [
    | none ↦ none
    | some p ↦
        let digits = drop 1 p in
        if begins_with (codes "+") p
          && (not (is_empty digits) && not (any (λ c. not (r.is_digit c)) digits))
          && leb 8 (length digits)
          && leb (length digits) 15
        then some p
        else none
  ]

  unfoldable pub is_valid_email : Text → Bool
  is_valid_email raw = r.matches_email (strip raw) && leb (length raw) 200

-- The fields of the consent that a row states, with its source and its time.
pub data ConsentFields : Type 0 where
  opt_in : Text → ℕ → ConsentFields
  opt_out : Text → ℕ → ConsentFields
  pending : Option Text → Option ℕ → ConsentFields
  unknown : Option Text → ConsentFields

unfoldable pub fields_status : ConsentFields → Text
fields_status (opt_in source at) = codes "opted_in"
fields_status (opt_out source at) = codes "opted_out"
fields_status (pending source at) = codes "pending"
fields_status (unknown source) = codes "unknown"

abbrev filled : Text → Option Text
filled t = if is_empty t then none else some t

abbrev filled_or : Text → Text → Text
filled_or t d = if is_empty t then d else t

abbrev pub opt_in_fields : Text → Option ℕ → Option ConsentFields
opt_in_fields source none = none
opt_in_fields source (some at) = if is_empty source then none else some (opt_in source at)

abbrev opt_out_at : ℕ → Option ℕ → ℕ
opt_out_at now none = now
opt_out_at now (some at) = at

-- `none` is the error of the column `consent_status`.
unfoldable pub consent_fields_from_row : Readers → ℕ → Row → Option ConsentFields
consent_fields_from_row r now row =
    let status =
      filled_or (lower (strip (column (codes "consent_status") row))) (codes "unknown") in
    let source = take 40 (strip (column (codes "consent_source") row)) in
    let consent_at = parse_dt r (column (codes "consent_at") row) in
    if text_eq status (codes "opted_in")
    then opt_in_fields source consent_at
    else if text_eq status (codes "opted_out")
    then some (opt_out (filled_or source (codes "import")) (opt_out_at now consent_at))
    else if text_eq status (codes "pending")
    then some (pending (filled source) consent_at)
    else if text_eq status (codes "unknown")
    then some (unknown (filled source))
    else none
