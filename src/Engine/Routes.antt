-- ===== src/Engine/Routes.antt =====
-- app/routes/campaigns.py: pause, resume, cancel and retry-failed. `none` is the refusal with status
-- 400, which changes nothing. The last branch of app/services/status_callback.py,
-- `_update_campaign_recipient`, stands here too.
use ai_wa_chat_agent_be.Prelude.{
  ℕ, Bool, true, false, ◌||◌, Option, none, some, ◌==◌, if◌then◌else◌, count, is_some,
}
use ai_wa_chat_agent_be.Delivery.{
  Status, queued, accepted, sending, sent, delivered, read, failed, undelivered, canceled,
}
use ai_wa_chat_agent_be.Campaign.{
  CampaignStatus, RecipientStatus, is_terminal, recipient_eq, recipient_should_apply,
}
use ai_wa_chat_agent_be.Engine.Store.{
  Recipient, process_batch, Store, find_one, has_id, update_many, has_status, set_status,
  set_recipient, enqueue, refresh_campaign_counters, is_paused, is_running,
}
use ai_wa_chat_agent_be.Engine.Send.{is_cancellable}

unfoldable pub pause_campaign : ℕ → Store → Option Store
pause_campaign now s =
    if is_running s.campaign.status
    then some (record s {
      campaign = record (s.campaign) { status = CampaignStatus.paused; paused_at = some now };
    })
    else none

-- What was in work is queued again, and the batch job is enqueued.
unfoldable pub resume_campaign : Store → Option Store
resume_campaign s =
    if is_paused s.campaign.status
    then some (
        enqueue 0 process_batch (record s {
          campaign = record (s.campaign) { status = CampaignStatus.running; paused_at = none };
          recipients =
              update_many (has_status RecipientStatus.processing)
                (set_status RecipientStatus.queued) s.recipients;
        }))
    else none

unfoldable pub cancel_campaign : ℕ → Store → Option Store
cancel_campaign now s =
    if is_terminal s.campaign.status
    then none
    else some (
        refresh_campaign_counters (record s {
          campaign = record (s.campaign) {
            status = CampaignStatus.cancelled;
            cancelled_at = some now;
            completed_at = some now;
          };
          recipients =
              update_many is_cancellable (set_status RecipientStatus.cancelled) s.recipients;
        }))

abbrev is_cancelled : CampaignStatus → Bool
is_cancelled CampaignStatus.cancelled = true
is_cancelled _ = false

abbrev queue_again : Recipient → Recipient
queue_again r = record r { status = RecipientStatus.queued; next_retry_at = none }

unfoldable pub retry_failed : Store → Option Store
retry_failed s =
    if is_cancelled s.campaign.status || count (has_status RecipientStatus.failed) s.recipients == 0
    then none
    else some (
        enqueue 0 process_batch (record s {
          campaign = record (s.campaign) { status = CampaignStatus.running; completed_at = none };
          recipients = update_many (has_status RecipientStatus.failed) queue_again s.recipients;
        }))

-- Provider statuses in the vocabulary of campaign recipients.
unfoldable pub mapped : Status → RecipientStatus
mapped queued = RecipientStatus.sent
mapped accepted = RecipientStatus.sent
mapped sending = RecipientStatus.sent
mapped sent = RecipientStatus.sent
mapped delivered = RecipientStatus.delivered
mapped read = RecipientStatus.read
mapped failed = RecipientStatus.failed
mapped undelivered = RecipientStatus.failed
mapped canceled = RecipientStatus.cancelled

abbrev on : RecipientStatus → RecipientStatus → ℕ → Option ℕ → Option ℕ
on due st now old = if recipient_eq st due then some now else old

-- `set_fields`, less the error texts; `sent_at` is set once, the other times at each callback.
unfoldable pub callback_fields : ℕ → Status → Recipient → Recipient
callback_fields now incoming r =
    let st = mapped incoming in
    record r {
      status = st;
      provider_status = some incoming;
      sent_at = if is_some r.sent_at then r.sent_at else on RecipientStatus.sent st now r.sent_at;
      delivered_at = on RecipientStatus.delivered st now r.delivered_at;
      read_at = on RecipientStatus.read st now r.read_at;
      failed_at = on RecipientStatus.failed st now r.failed_at;
    }

-- `incoming` is what `normalize_status` made of the provider's text.
unfoldable pub update_campaign_recipient : ℕ → ℕ → Option Status → Store → Store
update_campaign_recipient now rid none s = s
update_campaign_recipient now rid (some incoming) s = elim (find_one (has_id rid) s.recipients) [
  | none ↦ s
  | some r ↦
      if recipient_should_apply (some r.status) (mapped incoming)
      then refresh_campaign_counters (set_recipient rid (callback_fields now incoming) s)
      else s
]
