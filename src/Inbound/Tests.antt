-- ===== src/Inbound/Tests.antt =====
-- A STOP by WhatsApp, with the ASCII digits.
use ai_wa_chat_agent_be.Prelude.{
  arith, ℕ, ◌≡◌, refl, Bool, true, false, ◌&&◌, none, some, [], ◌∷◌, leb,
}
use ai_wa_chat_agent_be.Prelude.Text.{
  Text, codes, is_space, lower, lower_code, begins_with, strip, lstrip, rstrip, lookup_text,
  text_eq, is_one_of,
}
use ai_wa_chat_agent_be.Campaign.{RecipientStatus}
use ai_wa_chat_agent_be.Consent.{
  is_keyword, normalize_keyword_body, strip_front, strip_end, is_punct,
}
use ai_wa_chat_agent_be.Consent.Sync.{is_listed, open_for}
use ai_wa_chat_agent_be.Eligibility.{
  Senders, Request, is_confirmation, get_whatsapp_send_eligibility,
}
use ai_wa_chat_agent_be.Eligibility.Optout.{with_lead}
use ai_wa_chat_agent_be.PhoneNorm.{
  normalize_e164, normalize_digits, plus_digits, national_digits, country_code, strip_prefix,
  after_colon, lstrip_zeros,
}
use ai_wa_chat_agent_be.Engine.Store.{find_one}
use ai_wa_chat_agent_be.Inbound.Store.{
  twilio, InboundMessage, Handling, InboundSettings, User, InboundLead, TenantDb, InboundStore,
  duplicate, opt_out,
}
use ai_wa_chat_agent_be.Inbound.Steps.{
  claim, claim_webhook_event, resolve_tenant, is_self_sender, phone_statuses,
}
use ai_wa_chat_agent_be.Inbound.Pipeline.{
  plain, react, receive, process_inbound_message, process_all,
}
use ai_wa_chat_agent_be.Inbound.Redelivery.{process-redelivered}
use ai_wa_chat_agent_be.Inbound.Stop.{NoJobs, process-opted_out}

abbrev ascii : ℕ → Bool
ascii c = leb b'0' c && leb c b'9'

abbrev number : Text
number = codes "+447700900123"

abbrev settings : InboundSettings
settings = record {
  default_region = codes "GB";
  twilio_whatsapp_from = some (codes "whatsapp:+14155238886");
  allow_keyword_reoptin = true;
  optout_keywords = codes "stop" ∷ codes "unsubscribe" ∷ [];
  optin_keywords = codes "start" ∷ [];
  confirmation_enabled = true;
  confirmation_text = codes "You will get no more messages.";
  ai_features_enabled = true;
  openai_api_key = codes "sk";
  reply_window = 259200;
}

abbrev stop_message : InboundMessage
stop_message = record {
  provider = twilio;
  provider_message_id = codes "SM9";
  customer_phone = some (codes "whatsapp:+44 7700 900123");
  business_identifier = codes "+447700900999";
  body = codes " Stop! ";
  profile_name = some (codes "Ann");
  message_type = codes "text";
  skip_provider_outbound = false;
  skip_ai_jobs = false;
  business_display_phone = none;
}

abbrev handling : Handling
handling = record { now = 600000; media_meta = none; call_accepted = true }

abbrev tenant_user : User
tenant_user = record {
  id = 5;
  twilio_whatsapp_to = some (codes "+447700900999");
  meta_phone_number_id = none;
  meta_connection_status = none;
  legacy_ready = false;
  ai_enabled = true;
}

abbrev tenant_db : TenantDb
tenant_db = record {
  leads = λ p. none;
  blacklist = [];
  recipients =
      record {
        phone = number;
        status = RecipientStatus.queued;
        updated_at = 500000;
        replied_at = none;
        campaign_id = 1;
      }
      ∷ [];
  replied = [];
  consent_events = [];
  messages = [];
  calls = [];
}

abbrev before : InboundStore
before = record {
  webhook_events = [];
  message_keys = [];
  users = tenant_user ∷ [];
  tenant = λ i. tenant_db;
}

process-redelivered_example :
    let t =
      process_all ascii settings
        ((handling, stop_message) ∷ [])
        (process_inbound_message ascii settings handling stop_message before).0 in
    process_inbound_message ascii settings handling stop_message t ≡ (t, plain duplicate none [])
process-redelivered_example =
    process-redelivered ascii settings handling handling stop_message stop_message
      ((handling, stop_message) ∷ []) before refl refl refl refl refl (omega arith)

-- The phone is on the tenant's blacklist, and the message is no keyword.
abbrev blocked : InboundStore
blocked = record before { tenant = λ i. record tenant_db { blacklist = number ∷ [] } }

abbrev hello : InboundMessage
hello = record stop_message { body = codes "Hello" }

stop_phone : normalize_e164 ascii settings.default_region stop_message.customer_phone ≡ some number
unfolding normalize_e164 normalize_digits plus_digits national_digits country_code strip_prefix
    after_colon lstrip_zeros lower lower_code begins_with strip lstrip rstrip is_space lookup_text
    text_eq
stop_phone = refl

stop_tenant :
    resolve_tenant ascii settings.default_region stop_message before.users ≡ some tenant_user
unfolding resolve_tenant strip lstrip rstrip is_space find_one text_eq
stop_tenant = refl

stop_outcome :
    (process_inbound_message ascii settings handling stop_message before).1.outcome ≡ opt_out
unfolding process_inbound_message receive react claim_webhook_event claim is_self_sender
    resolve_tenant find_one is_keyword normalize_keyword_body strip_front strip_end is_punct
    is_one_of normalize_e164 normalize_digits plus_digits national_digits country_code strip_prefix
    after_colon lstrip_zeros lower lower_code begins_with strip lstrip rstrip is_space lookup_text
    text_eq
stop_outcome = refl

process-opted_out_example :
    let (t, r) = process_inbound_message ascii settings handling stop_message before in
    let d = t.tenant 5 in
    (is_listed number d.blacklist ≡ true)
    × (open_for number (phone_statuses d.recipients) ≡ 0)
    × NoJobs r
    × ((l : InboundLead) × (d.leads number ≡ some l)
        × ((now : ℕ) (e : Senders) (q : Request)
            → is_confirmation q.purpose ≡ false
            → (get_whatsapp_send_eligibility now e (with_lead l.contact q)).allowed ≡ false))
process-opted_out_example =
    process-opted_out ascii settings handling stop_message before number tenant_user stop_phone
      stop_tenant stop_outcome
