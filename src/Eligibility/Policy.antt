-- ===== src/Eligibility/Policy.antt =====
-- The policy that the eligibility check implements, in one line.
use ai_wa_chat_agent_be.Prelude.{ℕ, Bool, not, ◌&&◌, ◌||◌, ◌≡◌, arith}
use ai_wa_chat_agent_be.Prelude.Text.{codes, text_eq}
use ai_wa_chat_agent_be.Eligibility.{
  is_marketing, is_confirmation, Senders, Request, is_open_window, window_status, consent_of,
  is_blacklisted, recipient_phone, starts_with_plus, sender_configured_for, marketing_eligibility,
  service_eligibility, get_whatsapp_send_eligibility,
}

-- A message may go out: to a number in E.164 form by a sender that is set up, and, unless it is the
-- confirmation of an opt-out, to nobody who is blacklisted or has opted out, as marketing only to
-- those who opted in, and without a template only within the 24-hour window.
abbrev pub may_send : ℕ → Senders → Request → Bool
may_send now e q =
    sender_configured_for e q
    && starts_with_plus (recipient_phone q)
    && (is_confirmation q.purpose
        || (not (is_blacklisted q)
            && not (text_eq (consent_of q.lead) (codes "opted_out"))
            && (not (is_marketing q.purpose) || text_eq (consent_of q.lead) (codes "opted_in"))
            && (q.has_template || is_open_window (window_status now q.lead))))

-- The check allows exactly what the policy allows, for every purpose, provider and lead.
pub eligibility-may_send :
    (now : ℕ) (e : Senders) (q : Request)
    → (get_whatsapp_send_eligibility now e q).allowed ≡ may_send now e q
unfolding get_whatsapp_send_eligibility marketing_eligibility service_eligibility
eligibility-may_send now e q = ground arith
