-- ===== src/Engine/Send.antt =====
-- app/workers/campaign_tasks.py, `send_campaign_recipient`, for a campaign that is not an AI
-- campaign. One run of the job is one step; what the eligibility check, the permits of
-- app/services/throughput.py, the template lookups and the provider answer is its `Attempt`.
use ai_wa_chat_agent_be.Prelude.{
  ℕ, ◌+◌, ◌-◌, ◌*◌, Bool, true, false, ◌&&◌, ◌||◌, Option, none, some, ◌∷◌, max, leb, ◌==◌,
  if◌then◌else◌,
}
use ai_wa_chat_agent_be.Prelude.Text.{Text, strip, is_empty}
use ai_wa_chat_agent_be.Campaign.{CampaignStatus, RecipientStatus, is_terminal}
use ai_wa_chat_agent_be.Engine.Store.{
  Recipient, send_recipient, Store, Config, find_one, update_one, has_id, has_status, set_status,
  set_recipient, enqueue, claim_idempotency, refresh_campaign_counters, is_paused, is_running,
  maybe_complete_campaign,
}
use ai_wa_chat_agent_be.Engine.Errors.{
  SendError, is_retryable_category, account_blocked, final_status, compute_retry_delay_seconds,
}
use ai_wa_chat_agent_be.Engine.Jobs.{pause_campaign_for_account}

-- `accepted` has the id that the provider gave the message.
pub data Response : Type 0 where
  accepted : Option Text → Response
  rejected : SendError → Response

pub record Attempt : Type 0 where
  pub refusal : Option SendError  -- raised before the permit: not eligible
  pub permit : Bool
  pub content_error : Option SendError  -- raised before the call: no approved template, no message
  pub response : Response
  pub rand : ℕ  -- the jitter drawn

-- the filter of the claim: `status in ("queued", "retrying", "pending")`
abbrev pub is_claimable : Recipient → Bool
is_claimable r =
    has_status RecipientStatus.queued r
    || has_status RecipientStatus.retrying r
    || has_status RecipientStatus.pending r

-- the filter of a cancelled campaign
abbrev pub is_cancellable : Recipient → Bool
is_cancellable r =
    has_status RecipientStatus.queued r
    || has_status RecipientStatus.pending r
    || has_status RecipientStatus.retrying r
    || has_status RecipientStatus.processing r

abbrev pub start_attempt : Recipient → Recipient
start_attempt r = record r {
  status = RecipientStatus.processing;
  attempt_count = r.attempt_count + 1;
}

-- the attempt does not count: `$inc: {attempt_count: -1}` after the claim has added one
abbrev pub give_back : Recipient → Recipient
give_back r = record r { status = RecipientStatus.queued; attempt_count = r.attempt_count - 1 }

-- A Meta recipient that already has a message id was sent before.
abbrev pub has_message : Option Text → Bool
has_message none = false
has_message (some t) = if is_empty (strip t) then false else true

abbrev finish : ℕ → Store → Store
finish now s = maybe_complete_campaign now (refresh_campaign_counters s)

abbrev pub call_provider : ℕ → Store → Store
call_provider rid s = record s { calls = rid ∷ s.calls }

-- The message is stored, and the recipient is `sent` if nothing else took it meanwhile.
unfoldable pub record_accepted : ℕ → ℕ → Option Text → Store → Store
record_accepted now rid mid s = finish now (record s {
  messages = rid ∷ s.messages;
  recipients =
      update_one (λ r. has_id rid r && has_status RecipientStatus.processing r)
        (λ r. record r {
          status = RecipientStatus.sent;
          provider_message_id = if s.campaign.is_meta then mid else r.provider_message_id;
        })
        s.recipients;
})

abbrev pub retry_later : ℕ → ℕ → Recipient → Recipient
retry_later now delay r = record r {
  status = RecipientStatus.retrying;
  next_retry_at = some (now + delay);
}

abbrev pub or_one : ℕ → ℕ
or_one n = if n == 0 then 1 else n

abbrev pub is_cancelled : CampaignStatus → Bool
is_cancelled CampaignStatus.cancelled = true
is_cancelled _ = false

-- The `except` branch; `attempts` is the count of the claimed recipient.
unfoldable pub handle_error : Config → ℕ → ℕ → ℕ → ℕ → SendError → Store → Store
handle_error cfg now rand rid attempts e s =
    let max_r = max cfg.whatsapp_max_retries cfg.campaign_max_retries in
    let delay = compute_retry_delay_seconds cfg rand (or_one attempts) in
    if account_blocked e && is_running s.campaign.status
    then pause_campaign_for_account now (set_recipient rid give_back s)
    else if is_cancelled s.campaign.status
    then finish now (set_recipient rid (set_status RecipientStatus.cancelled) s)
    else if is_retryable_category e.category
        && leb (or_one attempts) max_r
        && is_running s.campaign.status
    then finish now
        (enqueue (1000 * delay) (send_recipient rid) (set_recipient rid (retry_later now delay) s))
    else finish now (set_recipient rid (set_status (final_status e)) s)

respond : Config → ℕ → ℕ → ℕ → ℕ → Response → Store → Store
respond cfg now rand rid attempts (accepted mid) s =
    record_accepted now rid mid (call_provider rid s)
respond cfg now rand rid attempts (rejected e) s =
    handle_error cfg now rand rid attempts e (call_provider rid s)

-- From the idempotency claim on.
unfoldable pub attempt_send : Config → ℕ → ℕ → ℕ → Attempt → Store → Store
unfolding respond
attempt_send cfg now rid attempts a s = elim a.refusal [
  | some e ↦ handle_error cfg now a.rand rid attempts e s
  | none ↦
      if a.permit
      then elim a.content_error [
        | some e ↦ handle_error cfg now a.rand rid attempts e s
        | none ↦ respond cfg now a.rand rid attempts a.response s
      ]
      else enqueue 3000 (send_recipient rid) (set_recipient rid give_back s)
]

-- From the claim of the recipient on; `r` is the recipient before it.
unfoldable pub send_claimed : Config → ℕ → ℕ → Recipient → Attempt → Store → Store
send_claimed cfg now rid r a s =
    let claimed = set_recipient rid start_attempt s in
    if s.campaign.is_meta && has_message r.provider_message_id
    then finish now (set_recipient rid (set_status RecipientStatus.sent) claimed)
    else let (held, is_new) = claim_idempotency cfg now rid claimed in
      if is_new then attempt_send cfg now rid (r.attempt_count + 1) a held else held

unfoldable pub send_campaign_recipient : Config → ℕ → ℕ → Attempt → Store → Store
send_campaign_recipient cfg now rid a s =
    if is_paused s.campaign.status
    then s
    else if is_terminal s.campaign.status
    then refresh_campaign_counters (record s {
      recipients =
          update_one (λ r. has_id rid r && is_cancellable r) (set_status RecipientStatus.cancelled)
            s.recipients;
    })
    else elim (find_one (λ r. has_id rid r && is_claimable r) s.recipients) [
      | none ↦ s
      | some r ↦ send_claimed cfg now rid r a s
    ]
