-- ===== src/Inbound/Steps.antt =====
-- The steps of the pipeline: the claim of a delivery, its tenant, the sender's own number, the text
-- shown for a message, and the campaign that is replied to.
use ai_wa_chat_agent_be.Prelude.{
  ℕ, Bool, true, false, not, ◌&&◌, ◌||◌, Option, none, some, List, [], ◌∷◌, ◌++◌, leb, ◌==◌,
  or_else, is_some, if◌then◌else◌,
}
use ai_wa_chat_agent_be.Prelude.Text.{
  Text, codes, text_eq, is_empty, or_text, is_one_of, lookup_text, strip, normal,
}
use ai_wa_chat_agent_be.Campaign.{RecipientStatus, is_one}
use ai_wa_chat_agent_be.Consent.{ConsentStatus, Change, Collections, apply_consent_change}
use ai_wa_chat_agent_be.Engine.Store.{find_one}
use ai_wa_chat_agent_be.PhoneNorm.{normalize_e164}
use ai_wa_chat_agent_be.Inbound.Store.{
  WaProvider, twilio, meta, unknown_provider, InboundMessage, MediaMeta, InboundSettings, User,
  InboundLead, CampaignReply, TenantDb, InboundStore, has_claim, set_lead,
}

-- _MEDIA_PLACEHOLDERS
abbrev media_placeholders : List (Text × Text)
media_placeholders =
    (codes "image", codes "[image]")
    ∷ (codes "sticker", codes "[image]")
    ∷ (codes "document", codes "[document]")
    ∷ (codes "audio", codes "[audio]")
    ∷ (codes "voice", codes "[audio]")
    ∷ (codes "video", codes "[video]")
    ∷ []

abbrev pub text_of : Option Text → Text
text_of none = []
text_of (some t) = t

abbrev pub is_meta_provider : WaProvider → Bool
is_meta_provider meta = true
is_meta_provider _ = false

-- the name that stands for a message with no text, by its type
abbrev by_type : Text → Text
by_type mt = elim (lookup_text mt media_placeholders) [
  | some t ↦ t
  | none ↦
      if not (is_empty mt) && not (is_one_of mt (codes "text" ∷ codes "unknown" ∷ []))
      then codes "[" ++ (mt ++ codes "]")
      else []
]

-- _placeholder_body
unfoldable pub placeholder_body : WaProvider → Text → Text → Option MediaMeta → Text
placeholder_body p message_type body none =
    let text = strip body in if is_empty text then by_type (normal message_type) else text
placeholder_body p message_type body (some media) =
    let text = strip body in
    let filename = strip (text_of media.media_filename) in
    let mt = normal (or_text media.message_type (normal message_type)) in
    if not (is_empty text)
    then text
    else if not (is_empty filename) && (not (is_meta_provider p) || text_eq mt (codes "document"))
    then filename
    else by_type mt

-- insert_one of a claim, with the unique index
unfoldable pub claim : ℕ → WaProvider → Text → InboundStore → InboundStore × Bool
claim now p mid s =
    if has_claim now p mid s.webhook_events
    then (s, false)
    else (record s { webhook_events = (p, mid, now) ∷ s.webhook_events }, true)

-- _claim_webhook_event
unfoldable pub claim_webhook_event : ℕ → InboundMessage → InboundStore → InboundStore × Bool
claim_webhook_event now m s = elim m.provider [
  | twilio ↦
      if is_empty m.provider_message_id then (s, true) else claim now twilio m.provider_message_id s
  | meta ↦
      if is_empty m.provider_message_id then (s, false) else claim now meta m.provider_message_id s
  | unknown_provider ↦ (s, false)
]

abbrev option_is : Text → Option Text → Bool
option_is t none = false
option_is t (some u) = text_eq t u

abbrev connected : User → Option User
connected u =
    let status = normal (text_of u.meta_connection_status) in
    if text_eq status (codes "connected") || (text_eq status (codes "legacy_poc") && u.legacy_ready)
    then some u
    else none

module _ (is_digit : ℕ → Bool) where
  -- the number as it was sent, and else in its normal form
  abbrev find_by_number : Text → Text → List User → Option User
  find_by_number region ident users =
      elim (find_one (λ u. option_is ident u.twilio_whatsapp_to) users) [
        | some u ↦ some u
        | none ↦ elim (normalize_e164 is_digit region (some ident)) [
          | none ↦ none
          | some norm ↦ find_one (λ u. option_is norm u.twilio_whatsapp_to) users
        ]
      ]

  -- _resolve_tenant
  unfoldable pub resolve_tenant : Text → InboundMessage → List User → Option User
  resolve_tenant region m users =
      let ident = strip m.business_identifier in
      if is_empty ident then none else elim m.provider [
        | twilio ↦ find_by_number region ident users
        | meta ↦ elim (find_one (λ u. option_is ident u.meta_phone_number_id) users) [
          | none ↦ none
          | some u ↦ connected u
        ]
        | unknown_provider ↦ none
      ]

  abbrev same_number : Text → Option Text → Text → Bool
  same_number region other phone = option_is phone (normalize_e164 is_digit region other)

  -- is_self_sender and _is_self_sender, of a phone in its normal form
  unfoldable pub is_self_sender : InboundSettings → InboundMessage → Text → User → Bool
  is_self_sender cfg m phone user = elim (normalize_e164 is_digit cfg.default_region (some phone)) [
    | none ↦ false
    | some from_norm ↦
        same_number cfg.default_region cfg.twilio_whatsapp_from from_norm
        || same_number cfg.default_region user.twilio_whatsapp_to from_norm
        || same_number cfg.default_region m.business_display_phone from_norm
  ]

-- the query of _attribute_campaign_reply
abbrev is_recent : ℕ → Text → CampaignReply → Bool
is_recent since p r =
    text_eq p r.phone
    && is_one (some r.status)
        (RecipientStatus.sent ∷ RecipientStatus.delivered ∷ RecipientStatus.read ∷ [])
    && leb since r.updated_at
    && not (is_some r.replied_at)

-- the latest of those that fit, and the first of these
abbrev latest_reply : (CampaignReply → Bool) → List CampaignReply → Option CampaignReply
latest_reply p [] = none
latest_reply p (r ∷ rs) =
    let rest = latest_reply p rs in
    if p r
    then elim rest [
      | none ↦ some r
      | some b ↦ if leb b.updated_at r.updated_at then some r else some b
    ]
    else rest

-- The write, to the first that fits and is as late as the latest.
abbrev mark_replied : (CampaignReply → Bool) → ℕ → ℕ → List CampaignReply → List CampaignReply
mark_replied p latest_at now [] = []
mark_replied p latest_at now (r ∷ rs) =
    let rest = mark_replied p latest_at now rs in
    if p r && r.updated_at == latest_at
    then record r { status = RecipientStatus.replied; replied_at = some now; updated_at = now } ∷ rs
    else r ∷ rest

-- _attribute_campaign_reply; the id of the recipient's campaign is valid.
unfoldable pub attribute_campaign_reply : ℕ → ℕ → Text → TenantDb → TenantDb
attribute_campaign_reply now since p t = elim (latest_reply (is_recent since p) t.recipients) [
  | none ↦ t
  | some r ↦ record t {
    recipients = mark_replied (is_recent since p) r.updated_at now t.recipients;
    replied = r.campaign_id ∷ t.replied;
  }
]

-- The collections of apply_consent_change, out of the tenant's and back.
abbrev pub phone_statuses : List CampaignReply → List (Text × RecipientStatus)
phone_statuses [] = []
phone_statuses (r ∷ rs) = (r.phone, r.status) ∷ phone_statuses rs

abbrev pub write_statuses : List CampaignReply → List (Text × RecipientStatus) → List CampaignReply
write_statuses [] ps = []
write_statuses (r ∷ rs) [] = r ∷ rs
write_statuses (r ∷ rs) ((p, st) ∷ ps) = record r { status = st } ∷ write_statuses rs ps

abbrev pub collections : InboundLead → TenantDb → Collections
collections l t = record {
  lead = some l.contact;
  blacklist = t.blacklist;
  recipients = phone_statuses t.recipients;
  consent_events = t.consent_events;
}

unfoldable pub change_consent :
    ℕ → ConsentStatus → Change → Text → InboundLead → TenantDb → TenantDb
change_consent now st c p l t =
    let after = apply_consent_change now st c (some p) (collections l t) in
    set_lead p (record l { contact = or_else after.lead l.contact })
      (record t {
        blacklist = after.blacklist;
        recipients = write_statuses t.recipients after.recipients;
        consent_events = after.consent_events;
      })
