-- ===== src/Eligibility/Tests.antt =====
-- The policy on concrete requests.
use ai_wa_chat_agent_be.Prelude.{◌≡◌, true, false, ◌&&◌, none, some}
use ai_wa_chat_agent_be.Prelude.Text.{codes}
use ai_wa_chat_agent_be.Consent.{opted_out, Lead, Change, consent_update_fields}
use ai_wa_chat_agent_be.Eligibility.{
  campaign, Senders, Request, is_confirmation, recipient_phone, starts_with_plus,
  sender_configured_for, get_whatsapp_send_eligibility,
}
use ai_wa_chat_agent_be.Eligibility.Policy.{may_send, eligibility-may_send}
use ai_wa_chat_agent_be.Eligibility.Optout.{with_lead, opted_out-may_send}

abbrev twilio : Senders
twilio = record {
  twilio_account_sid = codes "AC1";
  twilio_auth_token = codes "secret";
  twilio_whatsapp_from = codes "+441632960000";
  twilio_messaging_service_sid = codes "";
  tenant_meta_ready = false;
}

abbrev lead : Lead
lead = record {
  phone = some (codes "+447700900123");
  whatsapp_consent_status = none;
  whatsapp_consent_source = none;
  whatsapp_consent_at = none;
  whatsapp_consent_updated_at = none;
  whatsapp_consent_proof = none;
  whatsapp_consent_changed_by = none;
  whatsapp_opted_out_at = none;
  whatsapp_opt_out_reason = none;
  blacklisted = false;
  ai_paused = false;
  last_inbound_at = none;
  whatsapp_window_expires_at = none;
}

abbrev request : Request
request = record {
  lead = lead;
  phone = none;
  purpose = campaign;
  has_template = true;
  blacklisted = none;
  provider = none;
}

abbrev change : Change
change = record { source = codes "manual"; proof = none; reason = none; changed_by = none }

eligibility-may_send_example :
    (get_whatsapp_send_eligibility 5 twilio request).allowed ≡ may_send 5 twilio request
eligibility-may_send_example = eligibility-may_send 5 twilio request

opted_out-may_send_example :
    let r = with_lead (consent_update_fields 4 opted_out change lead) request in
    (get_whatsapp_send_eligibility 5 twilio r).allowed ≡ (
      sender_configured_for twilio r
      && starts_with_plus (recipient_phone r)
      && is_confirmation r.purpose)
opted_out-may_send_example = opted_out-may_send 5 4 twilio change lead request
