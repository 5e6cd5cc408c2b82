-- ===== src/BlastWorker/Send.antt =====
-- app/workers/tasks.py, `_process_blast_recipient`: one recipient is taken, sent to, and its outcome
-- written. What the eligibility check, the permits of app/services/throughput.py, the template lookups
-- and the provider answer is its `Sending`.
use ai_wa_chat_agent_be.Prelude.{
  ℕ, ◌+◌, ◌-◌, ◌*◌, Bool, ◌&&◌, ◌||◌, Option, none, some, ◌∷◌, leb, if◌then◌else◌,
}
use ai_wa_chat_agent_be.Prelude.Text.{Text}
use ai_wa_chat_agent_be.Delivery.{Status}
use ai_wa_chat_agent_be.Engine.Store.{find_one, update_one}
use ai_wa_chat_agent_be.Engine.Errors.{
  SendError, is_retryable_category, account_blocked, compute_retry_delay_seconds,
}
use ai_wa_chat_agent_be.Engine.Send.{has_message}
use ai_wa_chat_agent_be.BlastWorker.Store.{
  BlastRecipientStatus, BlastRecipient, BlastStore, BlastConfig, is_pending, is_retrying,
  with_status, row_has_id, set_row, pause_blast_for_account,
}

-- `accepted` has the message's id and the status that Twilio answers, `none` where that is empty.
pub data BlastAnswer : Type 0 where
  accepted : Option Text → Option Status → BlastAnswer
  rejected : SendError → BlastAnswer

pub record Sending : Type 0 where
  pub refusal : Option SendError  -- raised before the permit: not eligible
  pub permit : Bool
  pub content_error : Option SendError  -- raised before the call: no approved template, no message
  pub answer : BlastAnswer
  pub rand : ℕ  -- the jitter drawn

-- the filter of the claim: `status in ("pending", "retrying")`
abbrev pub is_takeable : BlastRecipient → Bool
is_takeable r = with_status is_pending r || with_status is_retrying r

abbrev pub take_row : ℕ → BlastRecipient → BlastRecipient
take_row now r = record r {
  status = BlastRecipientStatus.processing;
  attempt_count = r.attempt_count + 1;
  updated_at = now;
}

-- the attempt does not count: `$inc: {attempt_count: -1}` after the claim has added one
abbrev pub return_row : ℕ → BlastRecipient → BlastRecipient
return_row now r = record r {
  status = BlastRecipientStatus.pending;
  attempt_count = r.attempt_count - 1;
  updated_at = now;
}

-- app_status
unfoldable pub app_status : Option Status → Status
app_status none = Status.sent
app_status (some Status.queued) = Status.sent
app_status (some Status.accepted) = Status.sent
app_status (some Status.sending) = Status.sent
app_status (some s) = s

unfoldable pub sent_row : Bool → ℕ → Option Text → Option Status → BlastRecipient → BlastRecipient
sent_row is_meta now mid st r =
    if is_meta
    then record r {
      status = BlastRecipientStatus.by_provider Status.sent;
      provider_message_id = mid;
      twilio_sid = none;
      updated_at = now;
    }
    else record r {
      status = BlastRecipientStatus.by_provider (app_status st);
      provider_status = st;
      twilio_sid = mid;
      updated_at = now;
    }

abbrev pub retry_row : ℕ → ℕ → BlastRecipient → BlastRecipient
retry_row now at r = record r {
  status = BlastRecipientStatus.retrying;
  next_retry_at = some at;
  updated_at = now;
}

abbrev pub fail_row : ℕ → BlastRecipient → BlastRecipient
fail_row now r = record r {
  status = BlastRecipientStatus.by_provider Status.failed;
  updated_at = now;
}

-- a delay in seconds, in milliseconds from now
abbrev pub retry_at : BlastConfig → ℕ → ℕ → ℕ → ℕ
retry_at cfg now rand attempts = now + 1000 * compute_retry_delay_seconds cfg.retries rand attempts

-- `except Exception as exc`
unfoldable pub handle_blast_error :
    BlastConfig → ℕ → ℕ → ℕ → ℕ → SendError → BlastStore → BlastStore
handle_blast_error cfg now rand rid attempts e s =
    if account_blocked e
    then pause_blast_for_account now (set_row rid (return_row now) s)
    else if is_retryable_category e.category && leb attempts cfg.retries.whatsapp_max_retries
    then set_row rid (retry_row now (retry_at cfg now rand attempts)) s
    else set_row rid (fail_row now) s

abbrev pub call_for : ℕ → BlastStore → BlastStore
call_for rid s = record s { calls = rid ∷ s.calls }

unfoldable pub answer_blast : BlastConfig → ℕ → ℕ → ℕ → Sending → BlastStore → BlastStore
answer_blast cfg now rid attempts t s = elim t.answer [
  | accepted mid st ↦ set_row rid (sent_row s.blast.is_meta now mid st) s
  | rejected e ↦ handle_blast_error cfg now t.rand rid attempts e s
]

-- Between the claim and the outcome: eligibility, the permit, the content, the call.
unfoldable pub send_to_row : BlastConfig → ℕ → ℕ → ℕ → Sending → BlastStore → BlastStore
send_to_row cfg now rid attempts t s = elim t.refusal [
  | some e ↦ handle_blast_error cfg now t.rand rid attempts e s
  | none ↦
      if t.permit
      then elim t.content_error [
        | some e ↦ handle_blast_error cfg now t.rand rid attempts e s
        | none ↦ answer_blast cfg now rid attempts t (call_for rid s)
      ]
      else set_row rid (return_row now) s
]

unfoldable pub process_blast_recipient : BlastConfig → ℕ → ℕ → Sending → BlastStore → BlastStore
process_blast_recipient cfg now rid t s =
    elim (find_one (λ r. row_has_id rid r && is_takeable r) s.rows) [
      | none ↦ s
      | some r ↦
          let taken : BlastStore = record s {
            rows = update_one (λ r. row_has_id rid r && is_takeable r) (take_row now) s.rows;
          } in
          if s.blast.is_meta && has_message r.provider_message_id
          then set_row rid
              (λ r. record r {
                status = BlastRecipientStatus.by_provider Status.sent;
                updated_at = now;
              })
              taken
          else send_to_row cfg now rid (r.attempt_count + 1) t taken
    ]
