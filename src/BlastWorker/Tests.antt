-- ===== src/BlastWorker/Tests.antt =====
-- Runs of the blast worker on two recipients.
use ai_wa_chat_agent_be.Prelude.{
  ℕ, ◌≡◌, refl, true, false, ◌&&◌, Option, none, some, List, [], ◌∷◌, arith, inl, inr, ◌==◌,
  if◌then◌else◌, Bool-cases,
}
use ai_wa_chat_agent_be.Prelude.Text.{codes}
use ai_wa_chat_agent_be.Delivery.{Status, status_eq}
use ai_wa_chat_agent_be.Blast.{is_sent, is_handed_over}
use ai_wa_chat_agent_be.Engine.Store.{find_one, update_one}
use ai_wa_chat_agent_be.Engine.Errors.{
  SendError, provider_rate_limited, is_retryable_category, account_blocked,
  compute_retry_delay_seconds,
}
use ai_wa_chat_agent_be.BlastWorker.Store.{
  BlastStatus, BlastRecipientStatus, BlastRecipient, BlastStore, BlastConfig, is_finished,
  is_blast_paused, is_blast_cancelled, is_row_open, is_pending, is_retrying, is_processing,
  is_counted_sent, is_failed_row, is_cancelled_row, count_rows, row_has_id, set_row,
  set_blast_status, enqueue_blast, recount_blast, final_blast_status, finalize_blast,
}
use ai_wa_chat_agent_be.BlastWorker.Send.{
  BlastAnswer, accepted, rejected, Sending, is_takeable, app_status, sent_row, handle_blast_error,
  answer_blast, send_to_row, process_blast_recipient,
}
use ai_wa_chat_agent_be.BlastWorker.Jobs.{
  Button, Turn, cancel, resume, retry, press, press_all, send_batch, after_batch, idle_blast,
  send_due, send_blast_messages, run_blast,
}
use ai_wa_chat_agent_be.BlastWorker.Rows.{IsUnique}
use ai_wa_chat_agent_be.BlastWorker.OneWrite.{
  verdict, outcome_row, process_blast_recipient-outcome_row,
}
use ai_wa_chat_agent_be.BlastWorker.Batch.{IsCalm}
use ai_wa_chat_agent_be.BlastWorker.Ends.{IsEnded, run_blast-IsEnded}
use ai_wa_chat_agent_be.BlastWorker.Cancelled.{rest_of_job, cancel_blast-run}
use ai_wa_chat_agent_be.BlastWorker.Done.{IsDone, blast_calls_for}
use ai_wa_chat_agent_be.BlastWorker.Once.{BlastEvent, job, button, run_events, IsDone-never_called}
use ai_wa_chat_agent_be.BlastWorker.Outcome.{finalize_blast-lost}

abbrev config : BlastConfig
config = record {
  blast_batch_size = 25;
  retries = record {
    batch_size = 50;
    send_delay_ms = 300;
    whatsapp_max_retries = 1;
    campaign_max_retries = 3;
    idempotency_ttl = 86400;
    retry_base = 7;
    retry_max = 8;
    retry_jitter = 2;
  };
}

abbrev row : ℕ → BlastRecipientStatus → BlastRecipient
row i st = record {
  id = i;
  status = st;
  attempt_count = 0;
  provider_message_id = none;
  twilio_sid = none;
  provider_status = none;
  next_retry_at = none;
  updated_at = 0;
}

abbrev store : List BlastRecipient → BlastStore
store rs = record {
  blast = record {
    status = BlastStatus.sending;
    is_meta = false;
    total_recipients = 2;
    sent_count = 0;
    failed_count = 0;
    cancelled_count = 0;
    paused_at = none;
  };
  rows = rs;
  calls = [];
  jobs = [];
}

abbrev two_pending : BlastStore
two_pending = store (row 1 BlastRecipientStatus.pending ∷ row 2 BlastRecipientStatus.pending ∷ [])

abbrev busy : SendError
busy = record {
  message = codes "Too many requests";
  category = provider_rate_limited;
  account_rejected = false;
  template_not_approved = false;
  approval_code = false;
}

abbrev calm : Sending → Turn
calm t = record { buttons = []; sending = t }

abbrev with_answer : BlastAnswer → Sending
with_answer a = record { refusal = none; permit = true; content_error = none; answer = a; rand = 1 }

abbrev sends : Sending
sends = with_answer (accepted (some (codes "SM1")) (some Status.queued))

abbrev fails : Sending
fails = with_answer (rejected busy)

-- The first recipient is accepted; every other is rejected for now, each time.
abbrev world : ℕ → Turn
world rid = if rid == 1 then calm sends else calm fails

abbrev status_of : Option BlastStore → Option BlastStatus
status_of none = none
status_of (some s) = some s.blast.status

-- The second is tried twice, the second time after 8 seconds and two idle jobs.
run_blast_test :
    status_of (run_blast config (λ _. world) 5 0 two_pending) ≡ some BlastStatus.partially_completed
unfolding run_blast send_blast_messages send_due send_batch press_all process_blast_recipient
    send_to_row answer_blast handle_blast_error sent_row app_status after_batch idle_blast
    set_blast_status set_row enqueue_blast recount_blast finalize_blast final_blast_status
    is_finished is_blast_paused is_blast_cancelled is_row_open is_pending is_retrying
    is_counted_sent is_failed_row is_cancelled_row is_sent is_handed_over status_eq find_one
    update_one is_retryable_category account_blocked compute_retry_delay_seconds
run_blast_test = refl

two-IsUnique : IsUnique two_pending.rows
two-IsUnique i = ground arith

process_blast_recipient-outcome_row_example :
    (process_blast_recipient config 9 2 fails two_pending).rows
    ≡ update_one
        (λ r. row_has_id 2 r && is_takeable r)
        (outcome_row config 9 false fails)
        two_pending.rows
process_blast_recipient-outcome_row_example =
    process_blast_recipient-outcome_row config 9 2 fails two_pending two-IsUnique

world-IsCalm : (time : ℕ) → IsCalm world
unfolding verdict account_blocked
world-IsCalm time rid = elim (Bool-cases (rid == 1)) [
  | inl y ↦ rw y (refl, refl)
  | inr n ↦ rw n (refl, refl)
]

run_blast-IsEnded_example :
    (u : BlastStore) × (run_blast config (λ _. world) 60000 0 two_pending ≡ some u) × IsEnded u
unfolding is_finished is_blast_paused is_row_open is_processing is_retrying
run_blast-IsEnded_example =
    run_blast-IsEnded config (λ _. world) 0 60000 two_pending world-IsCalm refl refl two-IsUnique
      (refl, (refl, tt)) (omega arith)

-- The tenant presses the button before the second recipient.
abbrev paused_world : Button → ℕ → Turn
paused_world b rid = if rid == 1 then calm sends else record { buttons = b ∷ []; sending = sends }

-- It is pressed while the first recipient is sent to; then the blast is resumed, retried, and sent.
cancel_blast-run_example :
    let es : List BlastEvent = button 10 resume ∷ button 11 retry ∷ job 12 world ∷ [] in
    let t =
      run_events config es
        (rest_of_job config 9 (paused_world retry) (1 ∷ 2 ∷ []) (press 8 cancel two_pending)) in
    (is_blast_cancelled t.blast.status ≡ true)
    × (count_rows is_row_open t.rows ≡ 0)
    × (t.calls ≡ two_pending.calls)
unfolding is_finished
cancel_blast-run_example =
    cancel_blast-run config 8 9 (paused_world retry) (1 ∷ 2 ∷ [])
      (button 10 resume ∷ button 11 retry ∷ job 12 world ∷ []) two_pending refl

IsDone-never_called_example :
    let es : List BlastEvent = button 5 retry ∷ job 9 world ∷ [] in
    let s = store (
      row 1 (BlastRecipientStatus.by_provider Status.delivered)
      ∷ row 2 (BlastRecipientStatus.by_provider Status.failed)
      ∷ []) in
    IsDone 1 (run_events config es s).rows
    × (blast_calls_for 1 (run_events config es s) ≡ blast_calls_for 1 s)
unfolding is_row_open is_failed_row status_eq
IsDone-never_called_example =
    IsDone-never_called config 1 (button 5 retry ∷ job 9 world ∷ [])
      (store (
        row 1 (BlastRecipientStatus.by_provider Status.delivered)
        ∷ row 2 (BlastRecipientStatus.by_provider Status.failed)
        ∷ []))
      ((λ _. refl), ((λ h. ground (arith, h)), tt))

abbrev undelivered_store : BlastStore
undelivered_store = store (
    row 1 (BlastRecipientStatus.by_provider Status.undelivered)
    ∷ row 2 (BlastRecipientStatus.by_provider Status.canceled)
    ∷ [])

finalize_blast-lost_example :
    let b = (finalize_blast undelivered_store).blast in
    (b.status ≡ BlastStatus.completed) × (b.sent_count ≡ 0) × (b.failed_count ≡ 0)
unfolding is_finished
finalize_blast-lost_example = finalize_blast-lost undelivered_store refl (omega arith) refl
