-- ===== src/Engine/Store.antt =====
-- The state that the jobs and the routes share: one document of `campaigns`, its documents of
-- `campaign_recipients` in the order of `created_at`, the claims of app/services/idempotency.py, the
-- calls of the provider and the jobs that were enqueued. A time is in seconds, a delay in
-- milliseconds. Publishing, notifications, metrics and error texts are not modelled.
use ai_wa_chat_agent_be.Prelude.{
  ℕ, ◌+◌, Bool, true, false, ◌&&◌, ◌||◌, Option, none, some, List, [], ◌∷◌, ◌++◌, max, ltb, ◌==◌,
  if◌then◌else◌, count,
}
use ai_wa_chat_agent_be.Prelude.Text.{Text}
use ai_wa_chat_agent_be.Delivery.{Status}
use ai_wa_chat_agent_be.Campaign.{
  CampaignStatus, RecipientStatus, is_open, is_terminal, recipient_eq, Counters, recount,
  finalize_status_from_counts,
}

pub record Recipient : Type 0 where
  pub id : ℕ
  pub status : RecipientStatus
  pub attempt_count : ℕ
  pub provider_message_id : Option Text
  pub provider_status : Option Status
  pub next_retry_at : Option ℕ
  pub sent_at : Option ℕ
  pub delivered_at : Option ℕ
  pub read_at : Option ℕ
  pub failed_at : Option ℕ

pub record Campaign : Type 0 where
  pub status : CampaignStatus
  pub is_meta : Bool  -- the stored provider
  pub counters : Counters
  pub started_at : Option ℕ
  pub paused_at : Option ℕ
  pub cancelled_at : Option ℕ
  pub completed_at : Option ℕ

pub data Job : Type 0 where
  send_recipient : ℕ → Job
  process_batch finalize_if_idle : Job

pub record Store : Type 0 where
  pub campaign : Campaign
  pub recipients : List Recipient
  pub claims : List (ℕ × ℕ)  -- recipient, and when its claim expires
  pub calls : List ℕ  -- the recipients for which the provider was called
  pub messages : List ℕ  -- the recipients of the outbound messages stored
  pub enqueued : List (ℕ × Job)  -- delay, and job

-- settings
pub record Config : Type 0 where
  pub batch_size : ℕ
  pub send_delay_ms : ℕ
  pub whatsapp_max_retries : ℕ
  pub campaign_max_retries : ℕ
  pub idempotency_ttl : ℕ
  pub retry_base : ℕ
  pub retry_max : ℕ
  pub retry_jitter : ℕ

module _ {ℓ} {A : Type ℓ} where
  unfoldable pub find_one : (A → Bool) → List A → Option A
  find_one p [] = none
  find_one p (x ∷ xs) = let rest = find_one p xs in if p x then some x else rest

  -- `update_one`: the first document that fits
  unfoldable pub update_one : (A → Bool) → (A → A) → List A → List A
  update_one p f [] = []
  update_one p f (x ∷ xs) = let rest = update_one p f xs in if p x then f x ∷ xs else x ∷ rest

  unfoldable pub update_many : (A → Bool) → (A → A) → List A → List A
  update_many p f [] = []
  update_many p f (x ∷ xs) = (if p x then f x else x) ∷ update_many p f xs

abbrev pub has_id : ℕ → Recipient → Bool
has_id rid r = r.id == rid

abbrev pub has_status : RecipientStatus → Recipient → Bool
has_status st r = recipient_eq r.status st

abbrev pub statuses : List Recipient → List RecipientStatus
statuses [] = []
statuses (r ∷ rs) = r.status ∷ statuses rs

-- open recipients: `count_documents` with RECIPIENT_OPEN
abbrev pub open_n : List Recipient → ℕ
open_n rs = count is_open (statuses rs)

abbrev pub set_status : RecipientStatus → Recipient → Recipient
set_status st r = record r { status = st }

unfoldable pub set_recipient : ℕ → (Recipient → Recipient) → Store → Store
set_recipient rid f s = record s { recipients = update_one (has_id rid) f s.recipients }

unfoldable pub set_campaign_status : CampaignStatus → Store → Store
set_campaign_status st s = record s { campaign = record (s.campaign) { status = st } }

unfoldable pub enqueue : ℕ → Job → Store → Store
enqueue delay j s = record s { enqueued = s.enqueued ++ (delay, j) ∷ [] }

-- `ttl = max(60, …)`
unfoldable pub claim_live : ℕ → ℕ → List (ℕ × ℕ) → Bool
claim_live now rid [] = false
claim_live now rid ((i, expiry) ∷ cs) = (i == rid && ltb now expiry) || claim_live now rid cs

-- the key is set, with its time to live
unfoldable pub add_claim : Config → ℕ → ℕ → Store → Store
add_claim cfg now rid s = record s { claims = (rid, now + max 60 cfg.idempotency_ttl) ∷ s.claims }

-- claim_idempotency: `SET … NX EX ttl`; the second part is whether the claim is new
unfoldable pub claim_idempotency : Config → ℕ → ℕ → Store → Store × Bool
claim_idempotency cfg now rid s =
    if claim_live now rid s.claims then (s, false) else (add_claim cfg now rid s, true)

-- _refresh_campaign_counters
unfoldable pub refresh_campaign_counters : Store → Store
refresh_campaign_counters s = record s {
  campaign = record (s.campaign) { counters = recount (statuses s.recipients) };
}

abbrev pub is_paused : CampaignStatus → Bool
is_paused CampaignStatus.paused = true
is_paused _ = false

abbrev pub is_running : CampaignStatus → Bool
is_running CampaignStatus.running = true
is_running _ = false

-- _maybe_complete_campaign
unfoldable pub maybe_complete_campaign : ℕ → Store → Store
maybe_complete_campaign now s =
    if is_terminal s.campaign.status || is_paused s.campaign.status
    then s
    else if ltb 0 (open_n s.recipients)
    then s
    else let fresh = refresh_campaign_counters s in
      let final = finalize_status_from_counts fresh.campaign.status fresh.campaign.counters in
      record fresh {
        campaign = record (fresh.campaign) { status = final; completed_at = some now };
      }
