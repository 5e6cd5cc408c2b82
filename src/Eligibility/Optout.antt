-- ===== src/Eligibility/Optout.antt =====
-- What a change of consent does to the eligibility of the lead.
use ai_wa_chat_agent_be.Prelude.{ℕ, true, false, ◌&&◌, ◌||◌, ◌≡◌, refl, ◌∙◌, arith, none}
use ai_wa_chat_agent_be.Prelude.Text.{codes, text_eq, normal, lstrip, rstrip, lower_code, is_space}
use ai_wa_chat_agent_be.Consent.{
  opted_in, opted_out, Lead, Change, consent_name, consent_fields, consent_update_fields,
}
use ai_wa_chat_agent_be.Eligibility.{
  is_confirmation, Senders, Request, is_open_window, window_status, consent_of, recipient_phone,
  starts_with_plus, sender_configured_for, get_whatsapp_send_eligibility,
}
use ai_wa_chat_agent_be.Eligibility.Policy.{eligibility-may_send}

-- A request about a lead whose consent was changed just before.
abbrev pub with_lead : Lead → Request → Request
with_lead l q = record q { lead = l }

-- What the check reads of a lead whose consent was changed.
opted_out-consent :
    (at : ℕ) (c : Change) (l : Lead)
    → text_eq (consent_of (consent_update_fields at opted_out c l)) (codes "opted_out") ≡ true
unfolding consent_update_fields consent_fields consent_name normal text_eq lstrip rstrip lower_code
    is_space
opted_out-consent at c l = refl

opted_in-consent :
    (at : ℕ) (c : Change) (l : Lead)
    → let u = consent_update_fields at opted_in c l in
      (text_eq (consent_of u) (codes "opted_out") ≡ false)
      × (text_eq (consent_of u) (codes "opted_in") ≡ true)
      × (u.blacklisted ≡ false)
unfolding consent_update_fields consent_fields consent_name normal text_eq lstrip rstrip lower_code
    is_space
opted_in-consent at c l = (refl, refl, refl)

-- After an opt-out nothing but the confirmation of the opt-out may be sent to the lead, whatever the
-- purpose, the template, the window and the caller's own reading of the blacklist.
pub opted_out-may_send :
    (now at : ℕ) (e : Senders) (c : Change) (l : Lead) (q : Request)
    → let r = with_lead (consent_update_fields at opted_out c l) q in
      (get_whatsapp_send_eligibility now e r).allowed ≡ (
        sender_configured_for e r
        && starts_with_plus (recipient_phone r)
        && is_confirmation r.purpose)
opted_out-may_send now at e c l q =
    eligibility-may_send now e (with_lead (consent_update_fields at opted_out c l) q)
    ∙ ground (arith, opted_out-consent at c l)

-- After an opt-in every message may be sent to the lead that has a template or falls within the
-- window, marketing included, if the sender is set up, the number is in E.164 form and the caller
-- leaves the blacklist to the lead.
pub opted_in-may_send :
    (now at : ℕ) (e : Senders) (c : Change) (l : Lead) (q : Request)
    → q.blacklisted ≡ none
    → let r = with_lead (consent_update_fields at opted_in c l) q in
      (get_whatsapp_send_eligibility now e r).allowed ≡ (
        sender_configured_for e r
        && starts_with_plus (recipient_phone r)
        && (is_confirmation r.purpose
            || r.has_template
            || is_open_window (window_status now r.lead)))
opted_in-may_send now at e c l q ask =
    eligibility-may_send now e (with_lead (consent_update_fields at opted_in c l) q)
    ∙ ground (arith, opted_in-consent at c l)
