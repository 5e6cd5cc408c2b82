-- ===== src/LeadImport/Tests.antt =====
-- A file of four rows, for a user with one lead that has opted out.
use ai_wa_chat_agent_be.Prelude.{
  ◌+◌, ◌≤◌, ◌≡◌, refl, inr, true, ◌&&◌, none, some, List, [], ◌∷◌, length, leb, max,
}
use ai_wa_chat_agent_be.Prelude.Text.{Text, codes, text_eq, is_one_of, begins_with, strip, lower}
use ai_wa_chat_agent_be.LeadImport.Fields.{Row, Readers}
use ai_wa_chat_agent_be.LeadImport.Sheet.{
  Upload, normalize_header, normalize_line, read_sheet, read_csv_rows, has_operator,
}
use ai_wa_chat_agent_be.LeadImport.Leads.{Lead}
use ai_wa_chat_agent_be.LeadImport.Run.{
  Job, update, begin, import_rows, summary, import_read, import_leads_csv,
}
use ai_wa_chat_agent_be.LeadImport.Each.{import_each, import_rows-each}
use ai_wa_chat_agent_be.LeadImport.Counts.{import_leads_csv-counts}
use ai_wa_chat_agent_be.LeadImport.Kept.{AreKept, import_rows-AreKept}

abbrev readers : Readers
readers = record {
  matches_digit = λ c. leb b'0' c && leb c b'9';
  is_digit = λ c. leb b'0' c && leb c b'9';
  from_iso_format = λ t. some 5;
  matches_email = λ t. true;
}

abbrev job : Job
job = record {
  readers = readers;
  now = 9;
  policy = update;
  default_region = codes "GB";
  max_errors = 20;
  batch_size = 2;
  max_rows = 100;
  max_mb = 1;
}

abbrev line : Text → Text → Row
line phone status = (codes "Phone", phone) ∷ (codes "consent status", status) ∷ []

abbrev lines : List Row
lines =
    line (codes "+447700900001") (codes "opted_in")
    ∷ line (codes "+447700900002") (codes "")
    ∷ line (codes "none") (codes "")
    ∷ line (codes "+447700900002") (codes "pending")
    ∷ []

abbrev upload : Upload
upload = record {
  size = 200;
  filename = some (codes "leads.csv");
  content_type = some (codes "text/csv");
  sheet = some (record { fieldnames = codes "Phone" ∷ codes "consent status" ∷ []; lines = lines });
}

abbrev row : Text → Text → Row
row phone status = (codes "phone", phone) ∷ (codes "consent_status", status) ∷ []

abbrev rows : List Row
rows =
    row (codes "+447700900001") (codes "opted_in")
    ∷ row (codes "+447700900002") (codes "")
    ∷ row (codes "none") (codes "")
    ∷ row (codes "+447700900002") (codes "pending")
    ∷ []

abbrev opted_out_lead : Lead
opted_out_lead = record {
  phone = codes "+447700900001";
  name = codes "Ann";
  email = none;
  company = none;
  source = codes "web";
  tags = [];
  whatsapp_consent_status = some (codes "opted_out");
  whatsapp_consent_source = some (codes "manual");
  whatsapp_consent_at = none;
  whatsapp_consent_updated_at = none;
  whatsapp_consent_proof = none;
  whatsapp_opted_out_at = some 1;
  whatsapp_opt_out_reason = none;
  blacklisted = true;
  ai_paused = true;
  updated_at = 1;
}

abbrev stored : List Lead
stored = opted_out_lead ∷ []

upload_is_read : import_leads_csv job upload stored ≡ inr (summary job stored rows)
unfolding import_leads_csv import_read read_csv_rows read_sheet normalize_line normalize_header
    has_operator begins_with is_one_of text_eq strip lower
upload_is_read = refl

import_leads_csv-counts_example :
    let out = summary job stored rows in
    (out.result.created + out.result.updated + out.result.skipped + out.result.failed
      ≡ out.total_rows)
    × (length out.result.leads ≡ length stored + out.result.created)
    × (length out.result.errors ≤ max 1 20)
    × (out.total_rows ≤ max 1 100)
import_leads_csv-counts_example =
    import_leads_csv-counts job upload stored (summary job stored rows) upload_is_read

import_rows-each_example :
    import_rows job 0 [] 2 rows (begin stored) ≡ import_each job 2 rows (begin stored)
import_rows-each_example = import_rows-each job 2 rows (begin stored)

import_rows-AreKept_example : AreKept stored (import_rows job 0 [] 2 rows (begin stored)).leads
import_rows-AreKept_example = import_rows-AreKept job rows (begin stored)
