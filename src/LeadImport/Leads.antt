-- ===== src/LeadImport/Leads.antt =====
-- app/services/lead_import.py: the documents of the leads that an import writes. The leads are those of
-- one user, in the order of the collection; an `_id` is the position, since nothing is deleted
-- meanwhile. Fields that a new lead gets alike are not modelled.
use ai_wa_chat_agent_be.Prelude.{
  ℕ, zero, suc, Bool, true, false, not, ◌&&◌, ◌||◌, Option, none, some, List, [], ◌∷◌,
  if◌then◌else◌, ltb, length, take,
}
use ai_wa_chat_agent_be.Prelude.Text.{
  Text, codes, text_eq, is_empty, or_text, is_one_of, lower, strip,
}
use ai_wa_chat_agent_be.LeadImport.Fields.{
  Row, ConsentFields, opt_in, opt_out, pending, unknown, column, parse_tags, fields_status,
}

pub record Lead : Type 0 where
  pub phone : Text
  pub name : Text
  pub email : Option Text
  pub company : Option Text
  pub source : Text
  pub tags : List Text
  pub whatsapp_consent_status : Option Text
  pub whatsapp_consent_source : Option Text
  pub whatsapp_consent_at : Option ℕ
  pub whatsapp_consent_updated_at : Option ℕ
  pub whatsapp_consent_proof : Option Text
  pub whatsapp_opted_out_at : Option ℕ
  pub whatsapp_opt_out_reason : Option Text
  pub blacklisted : Bool
  pub ai_paused : Bool
  pub updated_at : ℕ

-- CONSENT_DEFAULTS with the status
abbrev write_defaults : Text → Lead → Lead
write_defaults status l = record l {
  whatsapp_consent_status = some status;
  whatsapp_consent_source = none;
  whatsapp_consent_at = none;
  whatsapp_consent_updated_at = none;
  whatsapp_consent_proof = none;
  whatsapp_opted_out_at = none;
  whatsapp_opt_out_reason = none;
}

-- the keys of the consent fields, written to a document
unfoldable pub set_consent : ℕ → ConsentFields → Lead → Lead
set_consent now (opt_in source at) l = record l {
  whatsapp_consent_status = some (codes "opted_in");
  whatsapp_consent_source = some source;
  whatsapp_consent_at = some at;
  whatsapp_consent_updated_at = some now;
  whatsapp_opted_out_at = none;
  whatsapp_opt_out_reason = none;
  blacklisted = false;
}
set_consent now (opt_out source at) l = record l {
  whatsapp_consent_status = some (codes "opted_out");
  whatsapp_consent_source = some source;
  whatsapp_consent_updated_at = some now;
  whatsapp_opted_out_at = some at;
  whatsapp_opt_out_reason = some (codes "import");
  blacklisted = true;
  ai_paused = true;
}
set_consent now (pending source at) l = record (write_defaults (codes "pending") l) {
  whatsapp_consent_source = source;
  whatsapp_consent_at = at;
}
set_consent now (unknown source) l = record (write_defaults (codes "unknown") l) {
  whatsapp_consent_source = source;
}

-- What a row says of a lead, less the consent.
pub record Details : Type 0 where
  pub name : Text
  pub email : Text
  pub company : Text
  pub source : Text
  pub tags : List Text

abbrev text_or : Text → Text → Text
text_or t d = if is_empty t then d else t

unfoldable pub details : Text → Row → Details
details phone row = record {
  name = text_or (take 100 (strip (column (codes "name") row))) phone;
  email = strip (column (codes "email") row);
  company = take 100 (strip (column (codes "company") row));
  source = text_or (take 100 (strip (column (codes "source") row))) (codes "import");
  tags = parse_tags (column (codes "tags") row);
}

abbrev filled : Text → Option Text
filled t = if is_empty t then none else some t

-- `doc`
unfoldable pub new_lead : ℕ → Text → Details → ConsentFields → Lead
new_lead now phone d c = set_consent now c (record {
  phone = phone;
  name = d.name;
  email = filled d.email;
  company = filled d.company;
  source = d.source;
  tags = d.tags;
  whatsapp_consent_status = some (codes "unknown");
  whatsapp_consent_source = none;
  whatsapp_consent_at = none;
  whatsapp_consent_updated_at = none;
  whatsapp_consent_proof = none;
  whatsapp_opted_out_at = none;
  whatsapp_opt_out_reason = none;
  blacklisted = false;
  ai_paused = false;
  updated_at = now;
})

abbrev pub consent_status : Lead → Text
consent_status l = lower (or_text l.whatsapp_consent_status (codes "unknown"))

-- the three branches that leave the consent of an existing lead
unfoldable pub leaves_consent : ConsentFields → Lead → Bool
leaves_consent c existing =
    let new_status = fields_status c in
    let old = consent_status existing in
    (text_eq old (codes "opted_out") && not (text_eq new_status (codes "opted_out")))
    || (existing.blacklisted && text_eq new_status (codes "opted_in"))
    || (text_eq new_status (codes "unknown")
        && is_one_of old (codes "opted_in" ∷ codes "opted_out" ∷ codes "pending" ∷ []))

unfoldable pub write_details : ℕ → Details → Lead → Lead
write_details now d l = record l {
  name = d.name;
  updated_at = now;
  email = if is_empty d.email then l.email else some d.email;
  company = if is_empty d.company then l.company else some d.company;
  source = if is_empty d.source then l.source else d.source;
  tags = if ltb 0 (length d.tags) then d.tags else l.tags;
}

-- the `$set` of an update, decided on `existing` and written to the document `l`
unfoldable pub update_lead : ℕ → Details → ConsentFields → Lead → Lead → Lead
update_lead now d c existing l =
    if leaves_consent c existing
    then write_details now d l
    else set_consent now c (write_details now d l)

-- `existing_map.get(phone)`, with the position: of several documents the last was kept.
unfoldable pub find_phone : Text → List Lead → Option (ℕ × Lead)
find_phone p [] = none
find_phone p (l ∷ ls) = elim (find_phone p ls) [
  | some (i, e) ↦ some (suc i, e)
  | none ↦ if text_eq p l.phone then some (0, l) else none
]

unfoldable pub update_at : ℕ → (Lead → Lead) → List Lead → List Lead
update_at i f [] = []
update_at zero f (l ∷ ls) = f l ∷ ls
update_at (suc i) f (l ∷ ls) = l ∷ update_at i f ls
