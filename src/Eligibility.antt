-- ===== src/Eligibility.antt =====
-- app/services/whatsapp_eligibility.py: may this message be sent to this lead. The safe texts of the
-- refusals are not modelled.
pub mod Policy
pub mod Optout
mod Tests
use ai_wa_chat_agent_be.Prelude.{
  ℕ, Bool, true, false, not, ◌&&◌, ◌||◌, Option, none, some, [], ◌∷◌, if◌then◌else◌, is_some,
  or_else, ◌==◌,
}
use ai_wa_chat_agent_be.Prelude.Text.{Text, codes, normal, strip, is_empty, or_text, text_eq}
use ai_wa_chat_agent_be.Consent.{Lead, is_whatsapp_window_open}

pub data MessagePurpose : Type 0 where
  conversational transactional marketing support campaign opt_out_confirmation : MessagePurpose

-- MARKETING_PURPOSES
unfoldable pub is_marketing : MessagePurpose → Bool
is_marketing marketing = true
is_marketing campaign = true
is_marketing _ = false

abbrev pub is_confirmation : MessagePurpose → Bool
is_confirmation opt_out_confirmation = true
is_confirmation _ = false

pub data ReasonCode : Type 0 where
  ok configuration_error invalid_recipient consent_blocked consent_required window_closed :
      ReasonCode

pub data WindowState : Type 0 where
  open_window closed_window unknown_window : WindowState

pub record EligibilityResult : Type 0 where
  pub allowed : Bool
  pub reason_code : ReasonCode
  pub consent_status : Text
  pub window_status : WindowState
  pub blacklist_blocked : Bool
  pub template_required : Bool
  pub sender_configured : Bool

-- The settings of the senders; whether the tenant's Meta credentials are ready is asked elsewhere.
pub record Senders : Type 0 where
  pub twilio_account_sid : Text
  pub twilio_auth_token : Text
  pub twilio_whatsapp_from : Text
  pub twilio_messaging_service_sid : Text
  pub tenant_meta_ready : Bool

-- _sender_ok
unfoldable pub sender_ok : Senders → Bool
sender_ok s =
    not (is_empty s.twilio_account_sid)
    && not (is_empty s.twilio_auth_token)
    && (not (is_empty (strip s.twilio_whatsapp_from))
        || not (is_empty (strip s.twilio_messaging_service_sid)))

-- _window_status, of a lead that is given
unfoldable pub window_status : ℕ → Lead → WindowState
window_status now l =
    if is_whatsapp_window_open now l
    then open_window
    else if is_some l.whatsapp_window_expires_at || is_some l.last_inbound_at
    then closed_window
    else unknown_window

abbrev pub is_open_window : WindowState → Bool
is_open_window open_window = true
is_open_window _ = false

-- The arguments of the check; a missing lead is a lead without fields.
pub record Request : Type 0 where
  pub lead : Lead
  pub phone : Option Text
  pub purpose : MessagePurpose
  pub has_template : Bool
  pub blacklisted : Option Bool
  pub provider : Option Text

abbrev pub starts_with_plus : Text → Bool
starts_with_plus [] = false
starts_with_plus (c ∷ cs) = c == b'+'

abbrev pub consent_of : Lead → Text
consent_of l = normal (or_text l.whatsapp_consent_status (codes "unknown"))

abbrev pub is_blacklisted : Request → Bool
is_blacklisted q = or_else q.blacklisted q.lead.blacklisted

abbrev pub recipient_phone : Request → Text
recipient_phone q = strip (or_text q.phone (or_text q.lead.phone []))

abbrev pub sender_configured_for : Senders → Request → Bool
sender_configured_for e q =
    if text_eq (normal (or_text q.provider (codes "twilio"))) (codes "meta")
    then e.tenant_meta_ready
    else sender_ok e

abbrev result : Bool → ReasonCode → Text → WindowState → Bool → Bool → Bool → EligibilityResult
result allowed reason consent window blocked template sender = record {
  allowed = allowed;
  reason_code = reason;
  consent_status = consent;
  window_status = window;
  blacklist_blocked = blocked;
  template_required = template;
  sender_configured = sender;
}

-- The branches after the blacklist: marketing, and everything else.
unfoldable pub marketing_eligibility : Bool → Text → WindowState → EligibilityResult
marketing_eligibility has_template consent window =
    if not (text_eq consent (codes "opted_in"))
    then result false consent_required consent window false true true
    else if not has_template && not (is_open_window window)
    then result false window_closed consent window false true true
    else result true ok consent window false (not has_template && not (is_open_window window)) true

unfoldable pub service_eligibility : Bool → Text → WindowState → EligibilityResult
service_eligibility has_template consent window =
    if has_template
    then result true ok consent window false false true
    else if not (is_open_window window)
    then result false window_closed consent window false true true
    else result true ok consent window false false true

unfoldable pub get_whatsapp_send_eligibility : ℕ → Senders → Request → EligibilityResult
get_whatsapp_send_eligibility now e q =
    let consent = consent_of q.lead in
    let blocked = is_blacklisted q in
    let window = window_status now q.lead in
    if not (sender_configured_for e q)
    then result false configuration_error consent window blocked
        (not q.has_template && not (is_open_window window)) false
    else if not (starts_with_plus (recipient_phone q))
    then result false invalid_recipient consent window blocked false true
    else if is_confirmation q.purpose
    then result true ok consent window blocked false true
    else if blocked || text_eq consent (codes "opted_out")
    then result false consent_blocked consent window true false true
    else if is_marketing q.purpose
    then marketing_eligibility q.has_template consent window
    else service_eligibility q.has_template consent window
