-- ===== src/Inbound/Store.antt =====
-- The documents that an inbound message reads and writes: the claims of `webhook_events`, the users,
-- and the collections of each tenant, its leads by their phone. Scores, activities, notifications and
-- pushes are not modelled.
use ai_wa_chat_agent_be.Prelude.{
  ℕ, ◌+◌, ◌*◌, ltb, Bool, true, false, ◌&&◌, Option, some, List, [], ◌∷◌, ◌==◌, if◌then◌else◌,
}
use ai_wa_chat_agent_be.Prelude.Text.{Text, text_eq}
use ai_wa_chat_agent_be.Campaign.{RecipientStatus}
use ai_wa_chat_agent_be.Consent.{ConsentStatus, Lead}

-- Any other provider is `unknown_provider`.
pub data WaProvider : Type 0 where
  twilio meta unknown_provider : WaProvider

pub WaProvider-discrete : Discrete WaProvider
WaProvider-discrete = hlevel

unfoldable pub provider_eq : WaProvider → WaProvider → Bool
unfolding WaProvider-discrete
provider_eq a b = elim (WaProvider-discrete a b) [ yes _ ↦ true | no _ ↦ false ]

-- The id is stripped, and empty where it is missing.
pub record InboundMessage : Type 0 where
  pub provider : WaProvider
  pub provider_message_id : Text
  pub customer_phone : Option Text
  pub business_identifier : Text
  pub body : Text
  pub profile_name : Option Text
  pub message_type : Text
  pub skip_provider_outbound : Bool
  pub skip_ai_jobs : Bool
  pub business_display_phone : Option Text

-- What is stored of a media file, as far as the pipeline reads it.
pub record MediaMeta : Type 0 where
  pub media_filename : Option Text
  pub message_type : Option Text

-- What a run meets: the time, the media that were downloaded, and whether the call that sends the
-- confirmation of an opt-out succeeds.
pub record Handling : Type 0 where
  pub now : ℕ
  pub media_meta : Option MediaMeta
  pub call_accepted : Bool

pub record InboundSettings : Type 0 where
  pub default_region : Text
  pub twilio_whatsapp_from : Option Text
  pub allow_keyword_reoptin : Bool
  pub optout_keywords : List Text
  pub optin_keywords : List Text
  pub confirmation_enabled : Bool
  pub confirmation_text : Text
  pub ai_features_enabled : Bool
  pub openai_api_key : Text
  pub reply_window : ℕ  -- CAMPAIGN_REPLY_WINDOW_HOURS, at least one hour, in seconds

pub record User : Type 0 where
  pub id : ℕ
  pub twilio_whatsapp_to : Option Text
  pub meta_phone_number_id : Option Text
  pub meta_connection_status : Option Text
  pub legacy_ready : Bool  -- legacy_poc_fallback_allowed or tenant_meta_ready
  pub ai_enabled : Bool  -- `ai_settings.enabled is not False`

pub record InboundLead : Type 0 where
  pub contact : Lead
  pub name : Text
  pub takeover_by : Option Text
  pub confirmation_sent_at : Option ℕ

pub record CampaignReply : Type 0 where
  pub phone : Text
  pub status : RecipientStatus
  pub updated_at : ℕ
  pub replied_at : Option ℕ
  pub campaign_id : ℕ

pub record MessageDoc : Type 0 where
  pub phone : Text
  pub is_inbound : Bool
  pub text : Text
  pub provider_message_id : Option Text

pub record TenantDb : Type 0 where
  pub leads : Text → Option InboundLead
  pub blacklist : List Text
  pub recipients : List CampaignReply
  pub replied : List ℕ  -- the campaigns whose replied_count was incremented
  pub consent_events : List ConsentStatus
  pub messages : List MessageDoc
  pub calls : List Text  -- the phones for which the provider was called

pub record InboundStore : Type 0 where
  pub webhook_events : List (WaProvider × Text × ℕ)  -- with `received_at`
  pub message_keys : List (WaProvider × Text)  -- the unique index of `messages`
  pub users : List User
  pub tenant : ℕ → TenantDb

pub data Outcome : Type 0 where
  missing_id duplicate invalid_phone no_tenant self_sender blacklisted opt_out optin_ignored ok :
      Outcome

pub record InboundResult : Type 0 where
  pub outcome : Outcome
  pub user_id : Option ℕ
  pub is_new_lead : Bool
  pub enqueue_welcome : Bool
  pub enqueue_classify : Bool
  pub enqueue_ai : Bool
  pub body : Text

abbrev pub has_key : WaProvider → Text → List (WaProvider × Text) → Bool
has_key p mid [] = false
has_key p mid ((q, i) ∷ ks) = if provider_eq p q && text_eq mid i then true else has_key p mid ks

-- The index of app/db/mongo.py on `received_at` with expireAfterSeconds: a claim counts for thirty days.
abbrev pub claim_ttl : ℕ
claim_ttl = 60 * 60 * 24 * 30

-- find_one of a claim that has not expired
abbrev pub has_claim : ℕ → WaProvider → Text → List (WaProvider × Text × ℕ) → Bool
has_claim now p mid [] = false
has_claim now p mid ((q, i, received_at) ∷ es) =
    if provider_eq p q && text_eq mid i && ltb now (received_at + claim_ttl)
    then true
    else has_claim now p mid es

unfoldable pub set_tenant : ℕ → TenantDb → InboundStore → InboundStore
set_tenant uid t s = record s { tenant = λ i. if i == uid then t else s.tenant i }

unfoldable pub set_lead : Text → InboundLead → TenantDb → TenantDb
set_lead p l t = record t { leads = λ q. if text_eq p q then some l else t.leads q }
