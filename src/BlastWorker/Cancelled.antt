-- ===== src/BlastWorker/Cancelled.antt =====
-- A blast after the button cancel, through the job that is under way and all that follows.
use ai_wa_chat_agent_be.Prelude.{
  ℕ, ◌≡◌, refl, true, false, List, [], ◌∷◌, arith, inl, inr, if◌then◌else◌, Bool-cases,
}
use ai_wa_chat_agent_be.BlastWorker.Store.{
  BlastStatus, BlastStore, BlastConfig, is_finished, is_blast_sending, is_blast_paused,
  is_blast_cancelled, is_row_open, count_rows, set_blast_status, recount_blast,
  cancel_open_blast_recipients, finalize_blast,
}
use ai_wa_chat_agent_be.BlastWorker.Buttons.{
  pause_blast, resume_blast, retry_failed_blast, cancel_blast,
}
use ai_wa_chat_agent_be.BlastWorker.Jobs.{
  Button, pause, resume, retry, cancel, press, press_all, Turn, close_cancelled, send_batch,
  after_batch, send_blast_messages,
}
use ai_wa_chat_agent_be.BlastWorker.Once.{BlastEvent, job, button, run_events, blast_step}
use ai_wa_chat_agent_be.BlastWorker.Stops.{cancel_open-closes}

-- The blast is cancelled, nobody is open, and the calls are these.
abbrev pub IsClosed : List ℕ → BlastStore → Type 0
IsClosed calls s =
    (is_blast_cancelled s.blast.status ≡ true)
    × (count_rows is_row_open s.rows ≡ 0)
    × (s.calls ≡ calls)

cancelled_only :
    (st : BlastStatus)
    → is_blast_cancelled st ≡ true
    → (is_blast_sending st ≡ false) × (is_blast_paused st ≡ false) × (is_finished st ≡ true)
unfolding is_blast_cancelled is_blast_sending is_blast_paused is_finished
cancelled_only st h = ground arith

-- No button does anything to a cancelled blast.
press-cancelled :
    (now : ℕ) (b : Button) (s : BlastStore)
    → is_blast_cancelled s.blast.status ≡ true
    → press now b s ≡ s
unfolding press pause_blast resume_blast retry_failed_blast cancel_blast
press-cancelled now pause s h = rw (cancelled_only s.blast.status h).0 refl
press-cancelled now resume s h = rw (cancelled_only s.blast.status h).1 refl
press-cancelled now retry s h = rw (h, press, retry_failed_blast) refl
press-cancelled now cancel s h = rw (cancelled_only s.blast.status h).2 refl

press_all-cancelled :
    (now : ℕ) (bs : List Button) (s : BlastStore)
    → is_blast_cancelled s.blast.status ≡ true
    → press_all now bs s ≡ s
unfolding press_all
press_all-cancelled now [] s h = refl
press_all-cancelled now (b ∷ bs) s h =
    rw (press-cancelled now b s h) (press_all-cancelled now bs s h)

close_cancelled-IsClosed :
    (now : ℕ) (calls : List ℕ) (s : BlastStore)
    → IsClosed calls s
    → IsClosed calls (close_cancelled now s)
unfolding recount_blast cancel_open_blast_recipients
close_cancelled-IsClosed now calls s (c, shut, same) = (c, cancel_open-closes now s.rows, same)

-- What is left of the loop.
send_batch-IsClosed :
    (cfg : BlastConfig) (now : ℕ) (world : ℕ → Turn) (calls rids : List ℕ) (s : BlastStore)
    → IsClosed calls s
    → IsClosed calls (send_batch cfg now world rids s).0
unfolding send_batch
send_batch-IsClosed cfg now world calls [] s h = h
send_batch-IsClosed cfg now world calls (rid ∷ rids) s h =
    rw
      (
        press_all-cancelled now (world rid).buttons s h.0,
        (cancelled_only s.blast.status h.0).1,
        h.0,
      )
      (close_cancelled-IsClosed now calls s h)

after_batch-IsClosed :
    (calls : List ℕ) (s : BlastStore) → IsClosed calls s → IsClosed calls (after_batch s)
unfolding after_batch recount_blast finalize_blast
after_batch-IsClosed calls s (c, shut, same) =
    rw (shut, (cancelled_only s.blast.status c).2) (c, shut, same)

job-IsClosed :
    (cfg : BlastConfig) (now : ℕ) (world : ℕ → Turn) (calls : List ℕ) (s : BlastStore)
    → IsClosed calls s
    → IsClosed calls (send_blast_messages cfg now world s)
unfolding send_blast_messages
job-IsClosed cfg now world calls s h =
    rw ((cancelled_only s.blast.status h.0).1, h.0) (close_cancelled-IsClosed now calls s h)

run-IsClosed :
    (cfg : BlastConfig) (calls : List ℕ) (es : List BlastEvent) (s : BlastStore)
    → IsClosed calls s
    → IsClosed calls (run_events cfg es s)
unfolding run_events blast_step
run-IsClosed cfg calls [] s h = h
run-IsClosed cfg calls (job now world ∷ es) s h =
    run-IsClosed cfg calls es (send_blast_messages cfg now world s)
      (job-IsClosed cfg now world calls s h)
run-IsClosed cfg calls (button now b ∷ es) s h =
    run-IsClosed cfg calls es (press now b s) (rw (press-cancelled now b s h.0) h)

press_cancel-IsClosed :
    (now : ℕ) (s : BlastStore)
    → is_finished s.blast.status ≡ false
    → IsClosed s.calls (press now cancel s)
unfolding press cancel_blast set_blast_status cancel_open_blast_recipients is_blast_cancelled
press_cancel-IsClosed now s h = rw h (refl, cancel_open-closes now s.rows, refl)

-- The rest of a job: the loop from a recipient on, and what follows the loop.
unfoldable pub rest_of_job : BlastConfig → ℕ → (ℕ → Turn) → List ℕ → BlastStore → BlastStore
rest_of_job cfg now world rids s =
    let (sent, ended) = send_batch cfg now world rids s in if ended then after_batch sent else sent

-- If a blast that is not finished is cancelled while a job is anywhere in its loop, then after the rest
-- of that job and any further jobs and buttons, resume and retry-failed included, in any order, the
-- blast is cancelled, no recipient is pending, processing or retrying, and the provider was not called
-- again.
pub cancel_blast-run :
    (cfg : BlastConfig) (now later : ℕ) (world : ℕ → Turn) (rids : List ℕ) (es : List BlastEvent)
    (s : BlastStore)
    → is_finished s.blast.status ≡ false
    → let t = run_events cfg es (rest_of_job cfg later world rids (press now cancel s)) in
      (is_blast_cancelled t.blast.status ≡ true)
      × (count_rows is_row_open t.rows ≡ 0)
      × (t.calls ≡ s.calls)
unfolding rest_of_job
cancel_blast-run cfg now later world rids es s h =
    let left = press now cancel s in
    let sent =
      send_batch-IsClosed cfg later world s.calls rids left (press_cancel-IsClosed now s h) in
    run-IsClosed cfg s.calls es _ (elim (Bool-cases (send_batch cfg later world rids left).1) [
      | inl y ↦ rw y (after_batch-IsClosed s.calls _ sent)
      | inr n ↦ rw n sent
    ])
