-- ===== src/Engine/Tests.antt =====
-- Runs of the engine on a concrete campaign.
use ai_wa_chat_agent_be.Prelude.{
  ◌+◌, ◌≤◌, ◌<◌, ◌≡◌, refl, true, false, none, some, List, [], ◌∷◌, arith, All,
}
use ai_wa_chat_agent_be.Prelude.Text.{codes}
use ai_wa_chat_agent_be.Campaign.{
  CampaignStatus, RecipientStatus, is_terminal, recipient_eq, recount,
}
use ai_wa_chat_agent_be.Engine.Store.{
  Recipient, Store, Config, find_one, has_id, claim_live, open_n, update_many,
  refresh_campaign_counters,
}
use ai_wa_chat_agent_be.Engine.Errors.{
  SendError, provider_rate_limited, is_retryable_category, account_blocked,
}
use ai_wa_chat_agent_be.Engine.Send.{Attempt, Response, accepted, rejected, send_campaign_recipient}
use ai_wa_chat_agent_be.Engine.Routes.{cancel_campaign}
use ai_wa_chat_agent_be.Engine.Run.{Event, start, send, pause, resume, retry, event_time, run}
use ai_wa_chat_agent_be.Engine.Closing.{IsSettled}
use ai_wa_chat_agent_be.Engine.Completion.{run-IsSettled}
use ai_wa_chat_agent_be.Engine.Once.{calls_for, InWindow, calls_for-run}
use ai_wa_chat_agent_be.Engine.Sent.{IsTakeable, send-accepted}
use ai_wa_chat_agent_be.Engine.Stuck.{IsRetried, retry_never_sends}
use ai_wa_chat_agent_be.Engine.Deferred.{deferral_never_sends}
use ai_wa_chat_agent_be.Engine.Cancelled.{cancel_campaign-run}

abbrev config : Config
config = record {
  batch_size = 50;
  send_delay_ms = 300;
  whatsapp_max_retries = 3;
  campaign_max_retries = 3;
  idempotency_ttl = 86400;
  retry_base = 30;
  retry_max = 3600;
  retry_jitter = 10;
}

abbrev recipient : Recipient
recipient = record {
  id = 7;
  status = RecipientStatus.queued;
  attempt_count = 0;
  provider_message_id = none;
  provider_status = none;
  next_retry_at = none;
  sent_at = none;
  delivered_at = none;
  read_at = none;
  failed_at = none;
}

abbrev running : Store
running = record {
  campaign = record {
    status = CampaignStatus.running;
    is_meta = false;
    counters = recount (RecipientStatus.queued ∷ []);
    started_at = some 1;
    paused_at = none;
    cancelled_at = none;
    completed_at = none;
  };
  recipients = recipient ∷ [];
  claims = [];
  calls = [];
  messages = [];
  enqueued = [];
}

abbrev answered : Response → Attempt
answered r = record { refusal = none; permit = true; content_error = none; response = r; rand = 4 }

abbrev busy : SendError
busy = record {
  message = codes "Too many requests";
  category = provider_rate_limited;
  account_rejected = false;
  template_not_approved = false;
  approval_code = false;
}

abbrev events : List Event
events =
    start 10
    ∷ send 11 7 (answered (accepted none))
    ∷ pause 12
    ∷ resume 13
    ∷ send 14 7 (answered (accepted none))
    ∷ retry 15
    ∷ []

events-InWindow : All (λ e. InWindow config 100 (event_time e)) events
unfolding event_time
events-InWindow = omega arith

calls_for-run_example : calls_for 7 (run config events running) ≤ 1
calls_for-run_example = calls_for-run config 100 events running 7 events-InWindow refl

running-IsSettled : IsSettled running
unfolding is_terminal
running-IsSettled h = cc

run-IsSettled_example : IsSettled (run config events running)
run-IsSettled_example = run-IsSettled config events running running-IsSettled

running-IsTakeable : IsTakeable 7 recipient running
unfolding find_one recipient_eq is_terminal
running-IsTakeable = (refl, refl, refl, refl, refl)

running-unclaimed : claim_live 10 7 running.claims ≡ false
unfolding claim_live
running-unclaimed = refl

send-accepted_example :
    let t = send_campaign_recipient config 10 7 (answered (accepted none)) running in
    (t.calls ≡ 7 ∷ [])
    × (t.messages ≡ 7 ∷ [])
    × ((u : Recipient) × (find_one (has_id 7) t.recipients ≡ some u)
        × (u.status ≡ RecipientStatus.sent)
        × (u.attempt_count ≡ 0 + 1))
send-accepted_example =
    send-accepted config 10 7 (answered (accepted none)) none recipient running running-IsTakeable
      running-unclaimed (refl, refl, refl) refl

busy-IsRetried : IsRetried config 1 busy
unfolding account_blocked is_retryable_category
busy-IsRetried = (refl, refl, refl)

retry_never_sends_example :
    let t = send_campaign_recipient config 10 7 (answered (rejected busy)) running in
    let u = send_campaign_recipient config 44 7 (answered (accepted none)) t in
    (t.calls ≡ 7 ∷ [])
    × (u.calls ≡ 7 ∷ [])
    × ((x : Recipient) × (find_one (has_id 7) u.recipients ≡ some x)
        × (x.status ≡ RecipientStatus.processing)
        × (x.attempt_count ≡ 0 + 1 + 1))
    × (0 < open_n u.recipients)
retry_never_sends_example =
    retry_never_sends config 10 44 7 (answered (rejected busy)) (answered (accepted none)) busy
      recipient running running-IsTakeable refl running-unclaimed (refl, refl, refl) refl
      busy-IsRetried (omega arith)

deferral_never_sends_example :
    let a = record (answered (accepted none)) { permit = false } in
    let u =
      send_campaign_recipient config 13 7
        (answered (accepted none))
        (send_campaign_recipient config 10 7 a running) in
    (u.calls ≡ [])
    × ((x : Recipient) × (find_one (has_id 7) u.recipients ≡ some x)
        × (x.status ≡ RecipientStatus.processing))
    × (0 < open_n u.recipients)
deferral_never_sends_example =
    deferral_never_sends config 10 13 7 (record (answered (accepted none)) { permit = false })
      (answered (accepted none)) recipient running running-IsTakeable running-unclaimed (refl, refl)
      (omega arith)

-- The store that the cancel button leaves.
abbrev cancelled : Store
cancelled = record running {
  campaign = record (running.campaign) {
    status = CampaignStatus.cancelled;
    counters = recount (RecipientStatus.cancelled ∷ []);
    cancelled_at = some 20;
    completed_at = some 20;
  };
  recipients = record recipient { status = RecipientStatus.cancelled } ∷ [];
}

running-cancel : cancel_campaign 20 running ≡ some cancelled
unfolding cancel_campaign is_terminal update_many refresh_campaign_counters recipient_eq
running-cancel = refl

cancel_campaign-run_example :
    let u = run config events cancelled in
    (u.campaign.status ≡ CampaignStatus.cancelled) × (open_n u.recipients ≡ 0) × (u.calls ≡ [])
cancel_campaign-run_example = cancel_campaign-run config 20 events running cancelled running-cancel
