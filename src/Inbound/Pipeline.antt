-- ===== src/Inbound/Pipeline.antt =====
-- app/services/inbound_whatsapp.py, `process_inbound_message`. The phone that the lead is found or
-- created with is in its normal form already, which a second normalisation leaves alone.
use ai_wa_chat_agent_be.Prelude.{
  ℕ, ◌-◌, Bool, true, false, not, ◌&&◌, ◌||◌, Option, none, some, List, [], ◌∷◌, any, is_some,
  or_else, take, if◌then◌else◌,
}
use ai_wa_chat_agent_be.Prelude.Text.{Text, codes, text_eq, is_empty, or_text, strip}
use ai_wa_chat_agent_be.Consent.{
  Lead, opted_in, opted_out, Change, inbound_window_fields, is_keyword,
}
use ai_wa_chat_agent_be.PhoneNorm.{normalize_e164}
use ai_wa_chat_agent_be.Inbound.Store.{
  WaProvider, InboundMessage, Handling, InboundSettings, User, InboundLead, TenantDb, InboundStore,
  Outcome, missing_id, duplicate, invalid_phone, no_tenant, self_sender, blacklisted, opt_out,
  optin_ignored, ok, InboundResult, has_key, set_tenant, set_lead,
}
use ai_wa_chat_agent_be.Inbound.Steps.{
  is_meta_provider, placeholder_body, claim_webhook_event, resolve_tenant, is_self_sender,
  attribute_campaign_reply, change_consent,
}

-- A result that asks for no job.
abbrev pub plain : Outcome → Option ℕ → Text → InboundResult
plain o uid body = record {
  outcome = o;
  user_id = uid;
  is_new_lead = false;
  enqueue_welcome = false;
  enqueue_classify = false;
  enqueue_ai = false;
  body = body;
}

-- CONSENT_DEFAULTS and the fields of a new contact
abbrev new_contact : Text → Lead
new_contact p = record {
  phone = some p;
  whatsapp_consent_status = some (codes "unknown");
  whatsapp_consent_source = none;
  whatsapp_consent_at = none;
  whatsapp_consent_updated_at = none;
  whatsapp_consent_proof = none;
  whatsapp_consent_changed_by = none;
  whatsapp_opted_out_at = none;
  whatsapp_opt_out_reason = none;
  blacklisted = false;
  ai_paused = false;
  last_inbound_at = none;
  whatsapp_window_expires_at = none;
}

-- lead_service.find_or_create_by_phone
unfoldable pub find_or_create_by_phone : Text → Option Text → TenantDb → InboundLead
find_or_create_by_phone p profile t = or_else (t.leads p) (record {
  contact = new_contact p;
  name = or_text profile p;
  takeover_by = none;
  confirmation_sent_at = none;
})

-- A contact that is named by its number takes the profile's name.
abbrev pub named : Text → Option Text → InboundLead → InboundLead
named p profile l =
    if not (is_empty (or_text profile [])) && (is_empty l.name || text_eq l.name p)
    then record l { name = or_text profile [] }
    else l

-- lead_service.ai_suppressed, of a lead that is there
unfoldable pub ai_suppressed : InboundLead → Bool
ai_suppressed l = l.contact.ai_paused || not (is_empty (or_text l.takeover_by []))

-- The answer to STOP, unless it was sent before.
unfoldable pub confirm_optout :
    InboundSettings → Handling → InboundMessage → Text → InboundLead → TenantDb → TenantDb
confirm_optout cfg h m p l t =
    let text = strip cfg.confirmation_text in
    if m.skip_provider_outbound
      || not cfg.confirmation_enabled
      || is_some l.confirmation_sent_at
      || is_empty text
    then t
    else let called : TenantDb = record t { calls = p ∷ t.calls } in
      if h.call_accepted
      then set_lead p (record l { confirmation_sent_at = some h.now })
          (record called {
            messages =
                record { phone = p; is_inbound = false; text = text; provider_message_id = none }
                ∷ t.messages;
          })
      else called

abbrev pub keyword_change : Text → Option Text → Text → Change
keyword_change source reason body = record {
  source = source;
  proof = some (take 200 body);
  reason = reason;
  changed_by = none;
}

abbrev pub lead_or : Text → InboundLead → TenantDb → InboundLead
lead_or p l t = or_else (t.leads p) l

-- The end of the pipeline for a message that is no opt-out: which jobs it asks for.
unfoldable pub ask_jobs :
    InboundSettings → InboundMessage → User → Bool → Text → InboundLead → InboundResult
ask_jobs cfg m user is_new body l = record {
  outcome = ok;
  user_id = some user.id;
  is_new_lead = is_new;
  enqueue_welcome = is_new && not m.skip_provider_outbound;
  enqueue_classify = not m.skip_ai_jobs;
  enqueue_ai =
      not m.skip_ai_jobs
      && cfg.ai_features_enabled
      && not (is_empty (strip cfg.openai_api_key))
      && not (ai_suppressed l)
      && not l.contact.blacklisted
      && not (text_eq (or_text l.contact.whatsapp_consent_status []) (codes "opted_out"))
      && user.ai_enabled;
  body = body;
}

-- Once the message is stored: the keywords, and the jobs.
unfoldable pub react :
    InboundSettings
    → Handling
    → InboundMessage
    → User
    → Text
    → Bool
    → Text
    → InboundLead
    → TenantDb
    → TenantDb × InboundResult
react cfg h m user p is_new display l t =
    let body = strip m.body in
    let optin = is_keyword cfg.optin_keywords body in
    if is_keyword cfg.optout_keywords body
    then (let source = codes "keyword_optout" in
        let out = change_consent h.now opted_out (keyword_change source (some source) body) p l t in
        (confirm_optout cfg h m p (lead_or p l out) out, plain opt_out (some user.id) display))
    else if optin && cfg.allow_keyword_reoptin
    then (let back =
          change_consent h.now opted_in (keyword_change (codes "keyword_optin") none body) p l t in
        (back, ask_jobs cfg m user is_new display (lead_or p l back)))
    else if optin
    then (t, plain optin_ignored (some user.id) [])
    else (t, ask_jobs cfg m user is_new display l)

-- The message is stored, the window opens, and a campaign may count a reply.
unfoldable pub store_message :
    InboundSettings → Handling → InboundMessage → Text → Text → InboundLead → TenantDb → TenantDb
store_message cfg h m p display l t = attribute_campaign_reply h.now (h.now - cfg.reply_window) p (
    set_lead p l (record t {
      messages =
          record {
            phone = p;
            is_inbound = true;
            text = display;
            provider_message_id =
                if is_empty m.provider_message_id then none else some m.provider_message_id;
          }
          ∷ t.messages;
    }))

-- insert_one of the message, with the unique index on its id
abbrev pub add_key : WaProvider → Text → InboundStore → InboundStore
add_key q mid s = if is_empty mid then s else record s { message_keys = (q, mid) ∷ s.message_keys }

unfoldable pub receive :
    InboundSettings
    → Handling
    → InboundMessage
    → Text
    → User
    → InboundStore
    → InboundStore × InboundResult
receive cfg h m p user s =
    let t = s.tenant user.id in
    let body = strip m.body in
    let l = named p m.profile_name (find_or_create_by_phone p m.profile_name t) in
    let seen = record l { contact = inbound_window_fields h.now l.contact } in
    let display = placeholder_body m.provider m.message_type body h.media_meta in
    let (after, result) =
      react cfg h m user p (not (is_some (t.leads p))) display seen
        (store_message cfg h m p display seen t) in
    if any (text_eq p) t.blacklist
      && not (is_keyword cfg.optin_keywords body && cfg.allow_keyword_reoptin)
    then (s, plain blacklisted (some user.id) [])
    else if not (is_empty m.provider_message_id)
        && has_key m.provider m.provider_message_id s.message_keys
    then (set_tenant user.id (set_lead p l t) s, plain duplicate (some user.id) [])
    else (set_tenant user.id after (add_key m.provider m.provider_message_id s), result)

module _ (is_digit : ℕ → Bool) where
  unfoldable pub process_inbound_message :
      InboundSettings → Handling → InboundMessage → InboundStore → InboundStore × InboundResult
  process_inbound_message cfg h m s =
      let (claimed, is_new) = claim_webhook_event h.now m s in
      if is_meta_provider m.provider && is_empty m.provider_message_id
      then (s, plain missing_id none [])
      else if not is_new
      then (claimed, plain duplicate none [])
      else elim (normalize_e164 is_digit cfg.default_region m.customer_phone) [
        | none ↦ (claimed, plain invalid_phone none [])
        | some p ↦ elim (resolve_tenant is_digit cfg.default_region m claimed.users) [
          | none ↦ (claimed, plain no_tenant none [])
          | some user ↦
              if is_self_sender is_digit cfg m p user
              then (claimed, plain self_sender (some user.id) [])
              else receive cfg h m p user claimed
        ]
      ]

  -- The deliveries, one after the other.
  unfoldable pub process_all :
      InboundSettings → List (Handling × InboundMessage) → InboundStore → InboundStore
  process_all cfg [] s = s
  process_all cfg ((h, m) ∷ ms) s = process_all cfg ms (process_inbound_message cfg h m s).0
