-- ===== src/BlastWorker/Buttons.antt =====
-- app/routes/campaigns.py: pause, resume, retry-failed and cancel of a blast. `none` is the refusal
-- with status 400.
use ai_wa_chat_agent_be.Prelude.{
  ℕ, ◌+◌, Bool, not, ◌&&◌, Option, none, some, ltb, ◌==◌, if◌then◌else◌, count,
}
use ai_wa_chat_agent_be.Engine.Store.{update_many}
use ai_wa_chat_agent_be.BlastWorker.Store.{
  BlastStatus, BlastRecipientStatus, BlastRecipient, BlastStore, is_finished, is_blast_sending,
  is_blast_paused, is_blast_cancelled, is_processing, is_failed_row, with_status, count_rows,
  set_blast_status, enqueue_blast, cancel_open_blast_recipients,
}
use ai_wa_chat_agent_be.BlastWorker.Send.{is_takeable}

unfoldable pub pause_blast : BlastStore → Option BlastStore
pause_blast s =
    if is_blast_sending s.blast.status then some (set_blast_status BlastStatus.paused s) else none

-- processing for more than five minutes
abbrev pub is_stuck : ℕ → BlastRecipient → Bool
is_stuck now r = with_status is_processing r && ltb (r.updated_at + 300000) now

-- _requeue_stuck_blast_recipients
unfoldable pub requeue_stuck_blast_recipients : ℕ → BlastStore → BlastStore
requeue_stuck_blast_recipients now s = record s {
  rows =
      update_many (is_stuck now)
        (λ r. record r { status = BlastRecipientStatus.pending; updated_at = now }) s.rows;
}

-- the blast sends, and the job is enqueued
unfoldable pub restart_blast : BlastStore → BlastStore
restart_blast s =
    enqueue_blast 0
      (record s { blast = record (s.blast) { status = BlastStatus.sending; paused_at = none } })

unfoldable pub resume_blast : ℕ → BlastStore → Option BlastStore
resume_blast now s =
    if is_blast_paused s.blast.status
    then some (restart_blast (requeue_stuck_blast_recipients now s))
    else none

abbrev pub reset_row : ℕ → BlastRecipient → BlastRecipient
reset_row now r = record r {
  status = BlastRecipientStatus.pending;
  attempt_count = 0;
  next_retry_at = none;
  updated_at = now;
}

-- The second part is the number of recipients that are sent to again, or the refusal; what was stuck is
-- pending again even if there is nothing to retry.
unfoldable pub retry_failed_blast : ℕ → BlastStore → BlastStore × Option ℕ
retry_failed_blast now s =
    let modified = count_rows is_failed_row s.rows in
    let reset : BlastStore = record s {
      rows = update_many (with_status is_failed_row) (reset_row now) s.rows;
    } in
    let requeued = requeue_stuck_blast_recipients now reset in
    if is_blast_cancelled s.blast.status
    then (s, none)
    else if modified == 0
        && not (is_blast_paused s.blast.status && ltb 0 (count is_takeable requeued.rows))
    then (requeued, none)
    else (restart_blast requeued, some modified)

unfoldable pub cancel_blast : ℕ → BlastStore → Option BlastStore
cancel_blast now s =
    if is_finished s.blast.status
    then none
    else some (cancel_open_blast_recipients now (set_blast_status BlastStatus.cancelled s))
