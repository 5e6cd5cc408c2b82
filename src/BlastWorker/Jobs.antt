-- ===== src/BlastWorker/Jobs.antt =====
-- app/workers/tasks.py, `send_blast_messages`: one job sends one batch and enqueues the next job. The
-- blast is found with its tenant and is not deleted while the job runs; a job reads the clock once.
use ai_wa_chat_agent_be.Prelude.{
  ℕ, zero, suc, ◌+◌, Bool, true, false, ◌&&◌, ◌||◌, Option, none, some, List, [], ◌∷◌, max, ltb,
  leb, ◌==◌, or_else, if◌then◌else◌, select, take, length,
}
use ai_wa_chat_agent_be.BlastWorker.Store.{
  BlastStatus, BlastRecipient, BlastStore, BlastConfig, is_finished, is_blast_paused,
  is_blast_cancelled, is_row_open, is_pending, is_retrying, with_status, count_rows,
  set_blast_status, enqueue_blast, cancel_open_blast_recipients, recount_blast, finalize_blast,
}
use ai_wa_chat_agent_be.BlastWorker.Send.{Sending, process_blast_recipient}
use ai_wa_chat_agent_be.BlastWorker.Buttons.{
  pause_blast, resume_blast, retry_failed_blast, cancel_blast,
}

-- What the tenant may press while a job runs.
pub data Button : Type 0 where
  pause resume retry cancel : Button

unfoldable pub press : ℕ → Button → BlastStore → BlastStore
press now pause s = or_else (pause_blast s) s
press now resume s = or_else (resume_blast now s) s
press now retry s = (retry_failed_blast now s).0
press now cancel s = or_else (cancel_blast now s) s

unfoldable pub press_all : ℕ → List Button → BlastStore → BlastStore
press_all now [] s = s
press_all now (b ∷ bs) s = press_all now bs (press now b s)

-- What happens when the loop comes to a recipient: the buttons pressed before, then the sending.
pub record Turn : Type 0 where
  pub buttons : List Button
  pub sending : Sending

abbrev pub retry_is_due : ℕ → Option ℕ → Bool
retry_is_due now none = false
retry_is_due now (some t) = leb t now

-- the query of the batch
abbrev pub is_row_due : ℕ → BlastRecipient → Bool
is_row_due now r =
    with_status is_pending r || (with_status is_retrying r && retry_is_due now r.next_retry_at)

abbrev pub row_ids : List BlastRecipient → List ℕ
row_ids [] = []
row_ids (r ∷ rs) = r.id ∷ row_ids rs

abbrev pub batch_of : BlastConfig → ℕ → List BlastRecipient → List ℕ
batch_of cfg now rs = row_ids (take (max 1 cfg.blast_batch_size) (select (is_row_due now) rs))

abbrev pub close_cancelled : ℕ → BlastStore → BlastStore
close_cancelled now s = recount_blast (cancel_open_blast_recipients now s)

-- The loop over the batch; the second part is whether it came to its end.
unfoldable pub send_batch : BlastConfig → ℕ → (ℕ → Turn) → List ℕ → BlastStore → BlastStore × Bool
send_batch cfg now world [] s = (s, true)
send_batch cfg now world (rid ∷ rids) s =
    let fresh = press_all now (world rid).buttons s in
    let rest =
      send_batch cfg now world rids
        (process_blast_recipient cfg now rid (world rid).sending fresh) in
    if is_blast_paused fresh.blast.status
    then (fresh, false)
    else if is_blast_cancelled fresh.blast.status
    then (close_cancelled now fresh, false)
    else rest

-- What follows the loop: the next batch, or the end.
unfoldable pub after_batch : BlastStore → BlastStore
after_batch s =
    let counted = recount_blast s in
    if ltb 0 (count_rows is_row_open counted.rows)
    then enqueue_blast 300 counted
    else finalize_blast counted

-- nothing is due
unfoldable pub idle_blast : BlastStore → BlastStore
idle_blast s = if count_rows is_row_open s.rows == 0 then finalize_blast s else enqueue_blast 5000 s

unfoldable pub send_due : BlastConfig → ℕ → (ℕ → Turn) → BlastStore → BlastStore
send_due cfg now world s =
    let batch = batch_of cfg now s.rows in
    let (sent, ended) = send_batch cfg now world batch s in
    if length batch == 0 then idle_blast s else if ended then after_batch sent else sent

unfoldable pub send_blast_messages : BlastConfig → ℕ → (ℕ → Turn) → BlastStore → BlastStore
send_blast_messages cfg now world s =
    if is_blast_paused s.blast.status
    then s
    else if is_blast_cancelled s.blast.status
    then close_cancelled now s
    else if is_finished s.blast.status
    then s
    else send_due cfg now world (set_blast_status BlastStatus.sending s)

-- The chain that a job starts: the worker takes the jobs in the order of the queue, each once its
-- delay is over. `none` when the fuel is out; what the chain leaves otherwise, with no job waiting.
unfoldable pub run_blast : BlastConfig → (ℕ → ℕ → Turn) → ℕ → ℕ → BlastStore → Option BlastStore
run_blast cfg world zero now s = none
run_blast cfg world (suc fuel) now s =
    let done = send_blast_messages cfg now (world now) (record s { jobs = [] }) in
    elim done.jobs [ [] ↦ some done | delay ∷ rest ↦ run_blast cfg world fuel (now + delay) done ]
