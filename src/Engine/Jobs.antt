-- ===== src/Engine/Jobs.antt =====
-- app/workers/campaign_tasks.py: start, batch, completion check and the pause for a rejected
-- account. The campaign is not an AI campaign, and is found with its tenant.
use ai_wa_chat_agent_be.Prelude.{
  ℕ, suc, ◌+◌, ◌*◌, Bool, true, false, not, ◌&&◌, ◌||◌, Option, none, some, List, [], ◌∷◌, max, ltb,
  leb, ◌==◌, if◌then◌else◌, count, any, select, take, length,
}
use ai_wa_chat_agent_be.Campaign.{CampaignStatus, RecipientStatus}
use ai_wa_chat_agent_be.Engine.Store.{
  Recipient, send_recipient, process_batch, finalize_if_idle, Store, Config, update_many,
  has_status, set_status, enqueue, refresh_campaign_counters, is_running, maybe_complete_campaign,
}

-- `status in ("queued", "running", "draft", "scheduled")`
abbrev pub is_startable : CampaignStatus → Bool
is_startable CampaignStatus.queued = true
is_startable CampaignStatus.running = true
is_startable CampaignStatus.draft = true
is_startable CampaignStatus.scheduled = true
is_startable _ = false

-- `next_retry_at` is set and not later than now
abbrev retry_due : ℕ → Option ℕ → Bool
retry_due now none = false
retry_due now (some t) = leb t now

-- what the batch's query finds
abbrev pub is_due : ℕ → Recipient → Bool
is_due now r =
    has_status RecipientStatus.queued r
    || (has_status RecipientStatus.retrying r && retry_due now r.next_retry_at)

abbrev pub ids : List Recipient → List ℕ
ids [] = []
ids (r ∷ rs) = r.id ∷ ids rs

-- The job of the i-th recipient is enqueued with the delay `delay_ms * i`.
unfoldable pub enqueue_sends : ℕ → ℕ → List ℕ → Store → Store
enqueue_sends delay_ms i [] s = s
enqueue_sends delay_ms i (rid ∷ rids) s =
    enqueue_sends delay_ms (suc i) rids (enqueue (delay_ms * i) (send_recipient rid) s)

-- queued, retrying or pending, and not in this batch
abbrev pub is_left : List ℕ → Recipient → Bool
is_left batch r =
    (has_status RecipientStatus.queued r
      || has_status RecipientStatus.retrying r
      || has_status RecipientStatus.pending r)
    && not (any (λ i. r.id == i) batch)

-- Enqueue the batch, and then the next batch or the completion check.
unfoldable pub enqueue_batch : Config → List ℕ → Store → Store
enqueue_batch cfg batch s =
    let sent = enqueue_sends cfg.send_delay_ms 0 batch s in
    if ltb 0 (count (is_left batch) s.recipients)
    then enqueue (cfg.send_delay_ms * max (length batch) 1 + 500) process_batch sent
    else enqueue 2000 finalize_if_idle sent

unfoldable pub process_campaign_batch : Config → ℕ → Store → Store
process_campaign_batch cfg now s =
    let batch = ids (take (max 1 cfg.batch_size) (select (is_due now) s.recipients)) in
    if not (is_running s.campaign.status)
    then s
    else if length batch == 0
    then maybe_complete_campaign now s
    else enqueue_batch cfg batch s

abbrev started : ℕ → Option ℕ → Option ℕ
started now none = some now
started now (some t) = some t

-- the writes of the start: the campaign runs, and what is pending is queued
unfoldable pub set_running : ℕ → Store → Store
set_running now s = record s {
  campaign = record (s.campaign) {
    status = CampaignStatus.running;
    started_at = started now s.campaign.started_at;
  };
  recipients =
      update_many (has_status RecipientStatus.pending) (set_status RecipientStatus.queued)
        s.recipients;
}

unfoldable pub start_campaign_job : Config → ℕ → Store → Store
start_campaign_job cfg now s =
    if is_startable s.campaign.status
    then process_campaign_batch cfg now (refresh_campaign_counters (set_running now s))
    else s

-- _pause_campaign_for_account
unfoldable pub pause_campaign_for_account : ℕ → Store → Store
pause_campaign_for_account now s =
    if is_running s.campaign.status
    then record s {
      campaign = record (s.campaign) { status = CampaignStatus.paused; paused_at = some now };
    }
    else s
