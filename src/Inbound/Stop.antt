-- ===== src/Inbound/Stop.antt =====
-- A customer who writes STOP.
use ai_wa_chat_agent_be.Prelude.{
  ℕ, ◌≡◌, refl, ◌∙◌, Bool, true, false, not, ◌&&◌, ◌||◌, Option, none, some, List, [], ◌∷◌, arith,
  inl, inr, any, is_some, Bool-cases,
}
use ai_wa_chat_agent_be.Prelude.Text.{Text, codes, text_eq, text_eq_refl, is_empty, strip}
use ai_wa_chat_agent_be.Consent.{
  Lead, opted_out, Change, is_keyword, inbound_window_fields, consent_update_fields,
  apply_consent_change, sync_phone, cancel_pending_for_phone,
}
use ai_wa_chat_agent_be.Consent.Sync.{
  is_listed, open_for, upsert_phone-listed, cancel_pending-closed,
}
use ai_wa_chat_agent_be.Eligibility.{
  Senders, Request, is_confirmation, get_whatsapp_send_eligibility,
}
use ai_wa_chat_agent_be.Eligibility.Optout.{with_lead, opted_out-may_send}
use ai_wa_chat_agent_be.PhoneNorm.{
  normalize_e164, normalize_digits, plus_digits, only_digits_plus, only_digits, national_digits,
  country_code, strip_prefix,
}
use ai_wa_chat_agent_be.Inbound.Store.{
  WaProvider, twilio, meta, unknown_provider, InboundMessage, Handling, InboundSettings, User,
  InboundLead, CampaignReply, TenantDb, InboundStore, missing_id, duplicate, self_sender,
  blacklisted, ok, optin_ignored, opt_out, InboundResult, has_key, set_tenant, set_lead,
}
use ai_wa_chat_agent_be.Inbound.Steps.{
  is_meta_provider, placeholder_body, claim, claim_webhook_event, resolve_tenant, is_self_sender,
  phone_statuses, write_statuses, change_consent,
}
use ai_wa_chat_agent_be.Inbound.Pipeline.{
  find_or_create_by_phone, named, add_key, confirm_optout, keyword_change, lead_or, ask_jobs, react,
  store_message, receive, process_inbound_message,
}

-- The contact of this phone opted out: it is on the blacklist, no campaign recipient of it is open,
-- and its consent was withdrawn last.
abbrev pub IsOut : Text → TenantDb → Type 0
IsOut p t =
    (is_listed p t.blacklist ≡ true)
    × (open_for p (phone_statuses t.recipients) ≡ 0)
    × ((l : InboundLead) × (t.leads p ≡ some l)
        × ((at : ℕ) × (c : Change) × (k : Lead) × (l.contact
              ≡ consent_update_fields at opted_out c k)))

write_cancelled :
    (p : Text) (rs : List CampaignReply)
    → phone_statuses (write_statuses rs (cancel_pending_for_phone p (phone_statuses rs)))
      ≡ cancel_pending_for_phone p (phone_statuses rs)
unfolding cancel_pending_for_phone
write_cancelled p [] = refl
write_cancelled p (r ∷ rs) = cc (write_cancelled p rs)

lead_set : (p : Text) (l : InboundLead) (t : TenantDb) → (set_lead p l t).leads p ≡ some l
unfolding set_lead
lead_set p l t = rw (text_eq_refl p) refl

change_consent-IsOut :
    (now : ℕ) (c : Change) (p : Text) (l : InboundLead) (t : TenantDb)
    → is_empty p ≡ false
    → IsOut p (change_consent now opted_out c p l t)
unfolding change_consent apply_consent_change sync_phone set_lead
change_consent-IsOut now c p l t filled =
    rw (filled, filled)
      (
        upsert_phone-listed p t.blacklist,
        rw (write_cancelled p t.recipients) (cancel_pending-closed p (phone_statuses t.recipients)),
        (
          record l { contact = consent_update_fields now opted_out c l.contact },
          rw (text_eq_refl p) refl,
          (now, c, l.contact, refl),
        ),
      )

confirm_optout-IsOut :
    (cfg : InboundSettings) (h : Handling) (m : InboundMessage) (p : Text) (l : InboundLead)
    (t : TenantDb)
    → IsOut p t
    → IsOut p (confirm_optout cfg h m p (lead_or p l t) t)
unfolding confirm_optout set_lead
confirm_optout-IsOut cfg h m p l t (listed, closed, (k, found, out)) =
    elim (Bool-cases (
      m.skip_provider_outbound
      || not cfg.confirmation_enabled
      || is_some (lead_or p l t).confirmation_sent_at
      || is_empty (strip cfg.confirmation_text))) [
        | inl y ↦ rw (y, confirm_optout) (listed, closed, (k, found, out))
        | inr n ↦ elim (Bool-cases h.call_accepted) [
          | inr lost ↦ rw (n, lost, confirm_optout) (listed, closed, (k, found, out))
          | inl sent ↦
              rw (n, sent, confirm_optout)
                (
                  listed,
                  closed,
                  (
                    record k { confirmation_sent_at = some h.now },
                    rw (text_eq_refl p, found) refl,
                    out,
                  ),
                )
        ]
      ]

-- What an opt-out's result is: no job is asked for.
abbrev pub NoJobs : InboundResult → Type 0
NoJobs r = (r.enqueue_welcome ≡ false) × (r.enqueue_classify ≡ false) × (r.enqueue_ai ≡ false)

react-IsOut :
    (cfg : InboundSettings) (h : Handling) (m : InboundMessage) (user : User) (p : Text)
    (is_new : Bool) (display : Text) (l : InboundLead) (t : TenantDb)
    → is_empty p ≡ false
    → let (u, r) = react cfg h m user p is_new display l t in
      r.outcome ≡ opt_out → IsOut p u × NoJobs r
unfolding react ask_jobs
react-IsOut cfg h m user p is_new display l t filled =
    elim (Bool-cases (is_keyword cfg.optout_keywords (strip m.body))) [
      | inl o ↦
          let change =
            keyword_change (codes "keyword_optout") (some (codes "keyword_optout"))
              (strip m.body) in
          rw (o, react)
            (λ _. (
              confirm_optout-IsOut cfg h m p l (change_consent h.now opted_out change p l t)
                  (change_consent-IsOut h.now change p l t filled),
              (refl, refl, refl),
            ))
      | inr stays ↦
          elim (Bool-cases
            (is_keyword cfg.optin_keywords (strip m.body) && cfg.allow_keyword_reoptin)) [
              | inl b ↦ rw (stays, b, react) (λ e. absurd (let d : ok ≡ opt_out = e in cc))
              | inr nb ↦ elim (Bool-cases (is_keyword cfg.optin_keywords (strip m.body))) [
                | inl i ↦
                    rw (stays, nb, i, react)
                      (λ e. absurd (let d : optin_ignored ≡ opt_out = e in cc))
                | inr ni ↦ rw (stays, nb, ni, react) (λ e. absurd (let d : ok ≡ opt_out = e in cc))
              ]
            ]
    ]

set_tenant-same : (uid : ℕ) (x : TenantDb) (s : InboundStore) → (set_tenant uid x s).tenant uid ≡ x
unfolding set_tenant
set_tenant-same uid x s = ground arith

receive-IsOut :
    (cfg : InboundSettings) (h : Handling) (m : InboundMessage) (p : Text) (user : User)
    (s : InboundStore)
    → is_empty p ≡ false
    → let (t, r) = receive cfg h m p user s in
      r.outcome ≡ opt_out → IsOut p (t.tenant user.id) × NoJobs r
unfolding receive
receive-IsOut cfg h m p user s filled =
    let t = s.tenant user.id in
    let l = named p m.profile_name (find_or_create_by_phone p m.profile_name t) in
    let seen = record l { contact = inbound_window_fields h.now l.contact } in
    let display = placeholder_body m.provider m.message_type (strip m.body) h.media_meta in
    let stored = store_message cfg h m p display seen t in
    let new = not (is_some (t.leads p)) in
    elim (Bool-cases (
      any (text_eq p) t.blacklist
      && not (is_keyword cfg.optin_keywords (strip m.body) && cfg.allow_keyword_reoptin))) [
        | inl b ↦ rw (b, receive) (λ e. absurd (let d : blacklisted ≡ opt_out = e in cc))
        | inr nb ↦
            elim (Bool-cases (
              not (is_empty m.provider_message_id)
              && has_key m.provider m.provider_message_id s.message_keys)) [
                | inl k ↦ rw (nb, k, receive) (λ e. absurd (let d : duplicate ≡ opt_out = e in cc))
                | inr nk ↦
                    rw (nb, nk, receive)
                      (rw
                        (set_tenant-same user.id (react cfg h m user p new display seen stored).0
                          (add_key m.provider m.provider_message_id s))
                        (react-IsOut cfg h m user p new display seen stored filled))
              ]
      ]

claim_webhook_event-users :
    (now : ℕ) (m : InboundMessage) (s : InboundStore)
    → (claim_webhook_event now m s).0.users ≡ s.users
unfolding claim_webhook_event claim
claim_webhook_event-users now m s = go m.provider
  where
    go :
        (p : WaProvider) → (claim_webhook_event now (record m { provider = p }) s).0.users ≡ s.users
    go twilio = ground arith
    go meta = ground arith
    go unknown_provider = refl

plus_digits-filled : (ds p : Text) → plus_digits ds ≡ some p → is_empty p ≡ false
unfolding plus_digits
plus_digits-filled ds p e = ground (arith, e)

out_refused :
    (now at : ℕ) (e : Senders) (c : Change) (k l : Lead) (q : Request)
    → l ≡ consent_update_fields at opted_out c k
    → is_confirmation q.purpose ≡ false
    → (get_whatsapp_send_eligibility now e (with_lead l q)).allowed ≡ false
out_refused now at e c k l q out other =
    rw out (opted_out-may_send now at e c k q ∙ ground (arith, other))

module _ (is_digit : ℕ → Bool) where
  normalized_filled :
      (region : Text) (raw : Option Text) (p : Text)
      → normalize_e164 is_digit region raw ≡ some p
      → is_empty p ≡ false
  unfolding normalize_e164 normalize_digits
  normalized_filled region none p e = absurd (let d : none ≡ some p = e in cc)
  normalized_filled region (some raw) p e =
      let s = only_digits_plus is_digit (strip_prefix (strip raw)) in
      let ds = only_digits is_digit s in
      ground (
        arith,
        e,
        plus_digits-filled ds p,
        plus_digits-filled (national_digits (country_code region) ds) p,
      )

  -- When a message is handled as an opt-out of phone `p` for a user, then in that user's collections
  -- the phone is on the blacklist, none of its campaign recipients is pending, queued, processing or
  -- retrying, and its lead is stored; the result asks for no welcome, no classification and no AI
  -- reply; and about that lead the eligibility check refuses every message, at any time and with any
  -- template, but the confirmation of an opt-out.
  pub process-opted_out :
      (cfg : InboundSettings) (h : Handling) (m : InboundMessage) (s : InboundStore) (p : Text)
      (user : User)
      → normalize_e164 is_digit cfg.default_region m.customer_phone ≡ some p
      → resolve_tenant is_digit cfg.default_region m s.users ≡ some user
      → (process_inbound_message is_digit cfg h m s).1.outcome ≡ opt_out
      → let (t, r) = process_inbound_message is_digit cfg h m s in
        let d = t.tenant user.id in
        (is_listed p d.blacklist ≡ true)
        × (open_for p (phone_statuses d.recipients) ≡ 0)
        × NoJobs r
        × ((l : InboundLead) × (d.leads p ≡ some l)
            × ((now : ℕ) (e : Senders) (q : Request)
                → is_confirmation q.purpose ≡ false
                → (get_whatsapp_send_eligibility now e (with_lead l.contact q)).allowed ≡ false))
  unfolding process_inbound_message
  process-opted_out cfg h m s p user e u o =
      let ((listed, closed, (l, found, (at, c, k, out))), jobs) = reached o in
      (
        listed,
        closed,
        jobs,
        (l, found, λ now senders q other. out_refused now at senders c k l.contact q out other),
      )
    where
      reached :
          (process_inbound_message is_digit cfg h m s).1.outcome ≡ opt_out
          → let (t, r) = process_inbound_message is_digit cfg h m s in
            IsOut p (t.tenant user.id) × NoJobs r
      reached =
          let claimed = (claim_webhook_event h.now m s).0 in
          let u' : resolve_tenant is_digit cfg.default_region m claimed.users ≡ some user =
            rw (claim_webhook_event-users h.now m s) u in
          elim (Bool-cases (is_meta_provider m.provider && is_empty m.provider_message_id)) [
            | inl y ↦
                rw (y, process_inbound_message)
                  (λ x. absurd (let d : missing_id ≡ opt_out = x in cc))
            | inr filled ↦ elim (Bool-cases (claim_webhook_event h.now m s).1) [
              | inr old ↦
                  rw (filled, old, process_inbound_message)
                    (λ x. absurd (let d : duplicate ≡ opt_out = x in cc))
              | inl fresh ↦ elim (Bool-cases (is_self_sender is_digit cfg m p user)) [
                | inl y ↦
                    rw (filled, fresh, e, u', y, process_inbound_message)
                      (λ x. absurd (let d : self_sender ≡ opt_out = x in cc))
                | inr n ↦
                    rw (filled, fresh, e, u', n, process_inbound_message)
                      (receive-IsOut cfg h m p user claimed
                        (normalized_filled cfg.default_region m.customer_phone p e))
              ]
            ]
          ]
