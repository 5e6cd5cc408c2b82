-- ===== src/Consent/Tests.antt =====
-- Consent and the window on concrete leads.
use ai_wa_chat_agent_be.Prelude.{false, none, some, [], ◌∷◌, arith}
use ai_wa_chat_agent_be.Prelude.Text.{Text, codes}
use ai_wa_chat_agent_be.Campaign.{RecipientStatus}
use ai_wa_chat_agent_be.Consent.{Lead, Change, Collections}
use ai_wa_chat_agent_be.Consent.Sync.{IsUnique}

abbrev number : Text
number = codes "+447700900123"

abbrev new_lead : Lead
new_lead = record {
  phone = some number;
  whatsapp_consent_status = none;
  whatsapp_consent_source = none;
  whatsapp_consent_at = none;
  whatsapp_consent_updated_at = none;
  whatsapp_consent_proof = none;
  whatsapp_consent_changed_by = none;
  whatsapp_opted_out_at = none;
  whatsapp_opt_out_reason = none;
  blacklisted = false;
  ai_paused = false;
  last_inbound_at = none;
  whatsapp_window_expires_at = none;
}

abbrev stop : Change
stop = record { source = codes "keyword_optout"; proof = none; reason = none; changed_by = none }

abbrev tenant : Collections
tenant = record {
  lead = some new_lead;
  blacklist = number ∷ [];
  recipients = (number, RecipientStatus.queued) ∷ [];
  consent_events = [];
}

tenant-IsUnique : IsUnique tenant.blacklist
tenant-IsUnique p = ground arith
