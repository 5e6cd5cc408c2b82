-- ===== src/LeadImport/Run.antt =====
-- app/services/lead_import.py, import_leads_csv: the rows one by one. Scores and sockets are not modelled.
use ai_wa_chat_agent_be.Prelude.{
  ℕ, zero, suc, ◌-◌, ◌⊎◌, inl, inr, Bool, not, ◌&&◌, Option, none, some, List, [], ◌∷◌, ◌++◌,
  if◌then◌else◌, ltb, any, length, max,
}
use ai_wa_chat_agent_be.Prelude.Text.{Text, codes, is_empty, is_one_of}
use ai_wa_chat_agent_be.LeadImport.Fields.{
  Row, Readers, ConsentFields, column, validate_phone, is_valid_email, consent_fields_from_row,
}
use ai_wa_chat_agent_be.LeadImport.Sheet.{
  Upload, Refusal, illegal_operator, read_csv_rows, has_operator,
}
use ai_wa_chat_agent_be.LeadImport.Leads.{
  Lead, Details, details, new_lead, update_lead, find_phone, update_at,
}

pub data DuplicatePolicy : Type 0 where
  skip update fail : DuplicatePolicy

-- The variables of the loop; an error is its row and its field.
pub record Import : Type 0 where
  pub leads : List Lead
  pub seen_phones : List Text
  pub created : ℕ
  pub updated : ℕ
  pub skipped : ℕ
  pub failed : ℕ
  pub errors : List (ℕ × Text)

unfoldable pub list_error : ℕ → ℕ → Text → List (ℕ × Text) → List (ℕ × Text)
list_error max_errors row_num field errors =
    if ltb (length errors) max_errors then errors ++ (row_num, field) ∷ [] else errors

unfoldable pub add_error : ℕ → ℕ → Text → Import → Import
unfolding list_error
add_error max_errors row_num field s = record s {
  failed = suc s.failed;
  errors = list_error max_errors row_num field s.errors;
}

-- What the import is called with, and its settings.
pub record Job : Type 0 where
  pub readers : Readers
  pub now : ℕ
  pub policy : DuplicatePolicy
  pub default_region : Text
  pub max_errors : ℕ
  pub batch_size : ℕ
  pub max_rows : ℕ
  pub max_mb : ℕ

-- the branches of a lead that exists
unfoldable pub store_existing :
    DuplicatePolicy → Job → ℕ → Details → ConsentFields → ℕ → Lead → Import → Import
store_existing skip j row_num d c i existing s = record s { skipped = suc s.skipped }
store_existing fail j row_num d c i existing s = add_error j.max_errors row_num (codes "phone") s
store_existing update j row_num d c i existing s = record s {
  leads = update_at i (update_lead j.now d c existing) s.leads;
  updated = suc s.updated;
}

-- the end of the loop's body, with what the lookup found
unfoldable pub store_row :
    Job → ℕ → Text → Details → ConsentFields → Option (ℕ × Lead) → Import → Import
store_row j row_num phone d c none s = record s {
  leads = s.leads ++ new_lead j.now phone d c ∷ [];
  created = suc s.created;
}
store_row j row_num phone d c (some (i, existing)) s =
    store_existing j.policy j row_num d c i existing s

-- the test of the email
abbrev pub refused_email : Job → Text → Row → Bool
refused_email j phone row =
    let email = (details phone row).email in
    not (is_empty email) && not (is_valid_email j.readers email)

-- the middle: a phone that the file has not had before
unfoldable pub import_phone : Job → ℕ → Text → Row → Option (ℕ × Lead) → Import → Import
import_phone j row_num phone row found s =
    let d = details phone row in
    if refused_email j phone row
    then add_error j.max_errors row_num (codes "email") s
    else elim (consent_fields_from_row j.readers j.now row) [
      | none ↦ add_error j.max_errors row_num (codes "consent_status") s
      | some c ↦ store_row j row_num phone d c found s
    ]

-- the loop's body after the check of the phone
unfoldable pub import_checked : Job → List Lead → ℕ → Row → Option Text → Import → Import
import_checked j known row_num row none s = add_error j.max_errors row_num (codes "phone") s
import_checked j known row_num row (some phone) s =
    if is_one_of phone s.seen_phones
    then record s {
      skipped = suc s.skipped;
      errors = list_error j.max_errors row_num (codes "phone") s.errors;
    }
    else import_phone j row_num phone row (find_phone phone known)
        (record s { seen_phones = phone ∷ s.seen_phones })

-- The body of the loop, with the leads in which the lookup is made.
unfoldable pub import_row : Job → List Lead → ℕ → Row → Import → Import
import_row j known row_num row s =
    import_checked j known row_num row
      (validate_phone j.readers j.default_region (column (codes "phone") row)) s

-- The rows of a batch are looked up in the leads as they were when it began: `known`, for as many rows
-- as are left of it.
unfoldable pub import_rows : Job → ℕ → List Lead → ℕ → List Row → Import → Import
import_rows j left known row_num [] s = s
import_rows j zero known row_num (row ∷ rows) s =
    import_rows j (max 1 j.batch_size - 1) s.leads (suc row_num) rows
      (import_row j s.leads row_num row s)
import_rows j (suc left) known row_num (row ∷ rows) s =
    import_rows j left known (suc row_num) rows (import_row j known row_num row s)

abbrev pub begin : List Lead → Import
begin leads = record {
  leads = leads;
  seen_phones = [];
  created = 0;
  updated = 0;
  skipped = 0;
  failed = 0;
  errors = [];
}

pub record Summary : Type 0 where
  pub total_rows : ℕ
  pub result : Import
  pub errors_truncated : Bool

-- the run and what is returned of it
unfoldable pub summary : Job → List Lead → List Row → Summary
summary j leads rows =
    let s = import_rows (record j { max_errors = max 1 j.max_errors }) 0 [] 2 rows (begin leads) in
    record {
      total_rows = length rows;
      result = s;
      errors_truncated = ltb (length s.errors) s.failed;
    }

-- the import of what was read. All rows have the columns of the header, so the first is where an
-- operator is found.
unfoldable pub import_read : Job → List Lead → Refusal ⊎ List Row → Refusal ⊎ Summary
import_read j leads (inl refused) = inl refused
import_read j leads (inr rows) =
    if any has_operator rows then inl illegal_operator else inr (summary j leads rows)

unfoldable pub import_leads_csv : Job → Upload → List Lead → Refusal ⊎ Summary
import_leads_csv j u leads = import_read j leads (read_csv_rows j.max_mb j.max_rows u)
