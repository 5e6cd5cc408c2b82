-- ===== src/BlastWorker/Store.antt =====
-- The state that the blast job and the buttons share: one document of `blast_campaigns`, its documents
-- of `blast_recipients` in the order of `created_at`, the calls of the provider and the jobs that were
-- enqueued. Times and delays are in milliseconds. The chat copy of a message, publishing,
-- notifications, metrics and error texts are not modelled.
use ai_wa_chat_agent_be.Prelude.{
  ℕ, Bool, true, false, ◌&&◌, ◌||◌, Option, some, List, [], ◌∷◌, ◌++◌, ltb, ◌==◌, if◌then◌else◌,
  count,
}
use ai_wa_chat_agent_be.Prelude.Text.{Text}
use ai_wa_chat_agent_be.Delivery.{Status, status_eq}
use ai_wa_chat_agent_be.Blast.{is_sent, is_handed_over}
use ai_wa_chat_agent_be.Engine.Store.{Config, update_one, update_many}

pub data BlastStatus : Type 0 where
  queued sending paused completed partially_completed failed cancelled : BlastStatus

-- BLAST_TERMINAL_STATUSES
unfoldable pub is_finished : BlastStatus → Bool
is_finished BlastStatus.completed = true
is_finished BlastStatus.partially_completed = true
is_finished BlastStatus.failed = true
is_finished BlastStatus.cancelled = true
is_finished _ = false

unfoldable pub is_blast_sending : BlastStatus → Bool
is_blast_sending BlastStatus.sending = true
is_blast_sending _ = false

unfoldable pub is_blast_paused : BlastStatus → Bool
is_blast_paused BlastStatus.paused = true
is_blast_paused _ = false

unfoldable pub is_blast_cancelled : BlastStatus → Bool
is_blast_cancelled BlastStatus.cancelled = true
is_blast_cancelled _ = false

-- The statuses that the worker writes, and the canonical ones of the provider, `sent` and `failed`
-- among them. (Twilio spells `canceled`.)
pub data BlastRecipientStatus : Type 0 where
  pending processing retrying cancelled : BlastRecipientStatus
  by_provider : Status → BlastRecipientStatus

-- BLAST_OPEN_STATUSES
unfoldable pub is_row_open : BlastRecipientStatus → Bool
is_row_open BlastRecipientStatus.pending = true
is_row_open BlastRecipientStatus.processing = true
is_row_open BlastRecipientStatus.retrying = true
is_row_open _ = false

unfoldable pub is_pending : BlastRecipientStatus → Bool
is_pending BlastRecipientStatus.pending = true
is_pending _ = false

unfoldable pub is_retrying : BlastRecipientStatus → Bool
is_retrying BlastRecipientStatus.retrying = true
is_retrying _ = false

unfoldable pub is_processing : BlastRecipientStatus → Bool
is_processing BlastRecipientStatus.processing = true
is_processing _ = false

-- ("sent", "delivered", "read", "queued", "accepted", "sending")
unfoldable pub is_counted_sent : BlastRecipientStatus → Bool
unfolding is_sent is_handed_over
is_counted_sent (BlastRecipientStatus.by_provider s) = is_sent (some s) || is_handed_over (some s)
is_counted_sent _ = false

unfoldable pub is_failed_row : BlastRecipientStatus → Bool
unfolding status_eq
is_failed_row (BlastRecipientStatus.by_provider s) = status_eq s Status.failed
is_failed_row _ = false

unfoldable pub is_cancelled_row : BlastRecipientStatus → Bool
is_cancelled_row BlastRecipientStatus.cancelled = true
is_cancelled_row _ = false

pub record BlastRecipient : Type 0 where
  pub id : ℕ
  pub status : BlastRecipientStatus
  pub attempt_count : ℕ
  pub provider_message_id : Option Text
  pub twilio_sid : Option Text
  pub provider_status : Option Status
  pub next_retry_at : Option ℕ
  pub updated_at : ℕ

pub record BlastDoc : Type 0 where
  pub status : BlastStatus
  pub is_meta : Bool  -- the stored provider
  pub total_recipients : ℕ
  pub sent_count : ℕ
  pub failed_count : ℕ
  pub cancelled_count : ℕ
  pub paused_at : Option ℕ

pub record BlastStore : Type 0 where
  pub blast : BlastDoc
  pub rows : List BlastRecipient
  pub calls : List ℕ  -- the recipients for which the provider was called
  pub jobs : List ℕ  -- the delays with which `send_blast_messages` was enqueued

-- settings: BLAST_BATCH_SIZE, and those of the retries
pub record BlastConfig : Type 0 where
  pub blast_batch_size : ℕ
  pub retries : Config

abbrev pub with_status : (BlastRecipientStatus → Bool) → BlastRecipient → Bool
with_status p r = p r.status

abbrev pub count_rows : (BlastRecipientStatus → Bool) → List BlastRecipient → ℕ
count_rows p rs = count (with_status p) rs

abbrev pub row_has_id : ℕ → BlastRecipient → Bool
row_has_id rid r = r.id == rid

unfoldable pub set_row : ℕ → (BlastRecipient → BlastRecipient) → BlastStore → BlastStore
set_row rid f s = record s { rows = update_one (row_has_id rid) f s.rows }

unfoldable pub set_blast_status : BlastStatus → BlastStore → BlastStore
set_blast_status st s = record s { blast = record (s.blast) { status = st } }

-- get_queue(…).enqueue_in(delay, send_blast_messages, …)
unfoldable pub enqueue_blast : ℕ → BlastStore → BlastStore
enqueue_blast delay s = record s { jobs = s.jobs ++ delay ∷ [] }

-- _cancel_open_blast_recipients
unfoldable pub cancel_open_blast_recipients : ℕ → BlastStore → BlastStore
cancel_open_blast_recipients now s = record s {
  rows =
      update_many (with_status is_row_open)
        (λ r. record r { status = BlastRecipientStatus.cancelled; updated_at = now }) s.rows;
}

-- _recount_blast
unfoldable pub recount_blast : BlastStore → BlastStore
recount_blast s = record s {
  blast = record (s.blast) {
    sent_count = count_rows is_counted_sent s.rows;
    failed_count = count_rows is_failed_row s.rows;
    cancelled_count = count_rows is_cancelled_row s.rows;
  };
}

-- final_status
unfoldable pub final_blast_status : BlastDoc → BlastStatus
final_blast_status b =
    if ltb 0 b.sent_count && ltb 0 b.failed_count
    then BlastStatus.partially_completed
    else if ltb 0 b.failed_count && b.sent_count == 0
    then BlastStatus.failed
    else if b.sent_count == 0 && b.failed_count == 0 && b.total_recipients == 0
    then BlastStatus.failed
    else BlastStatus.completed

-- _finalize_blast
unfoldable pub finalize_blast : BlastStore → BlastStore
unfolding recount_blast
finalize_blast s =
    let fresh = recount_blast s in
    if is_finished fresh.blast.status
    then fresh
    else recount_blast (set_blast_status (final_blast_status fresh.blast) fresh)

-- _pause_blast_for_account
unfoldable pub pause_blast_for_account : ℕ → BlastStore → BlastStore
pause_blast_for_account now s =
    if is_blast_sending s.blast.status
    then recount_blast (record s {
      blast = record (s.blast) { status = BlastStatus.paused; paused_at = some now };
    })
    else s
