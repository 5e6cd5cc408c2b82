-- ===== src/BlastWorker/Once.antt =====
-- Whom a blast never sends to (again): through any jobs and buttons, in any order.
use ai_wa_chat_agent_be.Prelude.{
  ℕ, ◌≡◌, refl, true, false, not, ◌&&◌, List, [], ◌∷◌, arith, inl, inr, ◌==◌, ltb, length,
  Bool-cases, count,
}
use ai_wa_chat_agent_be.Engine.Store.{update_many}
use ai_wa_chat_agent_be.BlastWorker.Store.{
  BlastStatus, BlastRecipient, BlastStore, BlastConfig, count_rows, is_blast_sending,
  is_blast_paused, is_blast_cancelled, is_finished, is_row_open, is_failed_row, is_processing,
  with_status, recount_blast, cancel_open_blast_recipients, set_blast_status, enqueue_blast,
  finalize_blast,
}
use ai_wa_chat_agent_be.BlastWorker.Send.{is_takeable, process_blast_recipient}
use ai_wa_chat_agent_be.BlastWorker.Buttons.{
  pause_blast, resume_blast, retry_failed_blast, cancel_blast, restart_blast,
  requeue_stuck_blast_recipients, is_stuck, reset_row,
}
use ai_wa_chat_agent_be.BlastWorker.Jobs.{
  Button, pause, resume, retry, cancel, press, press_all, Turn, close_cancelled, send_batch,
  after_batch, idle_blast, send_due, batch_of, send_blast_messages,
}
use ai_wa_chat_agent_be.BlastWorker.Stops.{press-calls}
use ai_wa_chat_agent_be.BlastWorker.Done.{
  is_done_row, IsDone, blast_calls_for, IsLeft, update_many-IsDone, process-IsLeft,
}

pub data BlastEvent : Type 0 where
  job : ℕ → (ℕ → Turn) → BlastEvent
  button : ℕ → Button → BlastEvent

unfoldable pub blast_step : BlastConfig → BlastEvent → BlastStore → BlastStore
blast_step cfg (job now world) s = send_blast_messages cfg now world s
blast_step cfg (button now b) s = press now b s

unfoldable pub run_events : BlastConfig → List BlastEvent → BlastStore → BlastStore
run_events cfg [] s = s
run_events cfg (e ∷ es) s = run_events cfg es (blast_step cfg e s)

stuck_undone : (now : ℕ) (r : BlastRecipient) → is_stuck now r ≡ true → is_done_row r ≡ false
unfolding is_row_open is_failed_row is_processing
stuck_undone now r h = ground arith

open_undone : (r : BlastRecipient) → with_status is_row_open r ≡ true → is_done_row r ≡ false
open_undone r h = ground arith

failed_undone : (r : BlastRecipient) → with_status is_failed_row r ≡ true → is_done_row r ≡ false
failed_undone r h = ground arith

requeue-IsDone :
    (rid now : ℕ) (s : BlastStore)
    → IsDone rid s.rows
    → IsDone rid (requeue_stuck_blast_recipients now s).rows
unfolding requeue_stuck_blast_recipients
requeue-IsDone rid now s h =
    update_many-IsDone rid (is_stuck now) _ s.rows (λ r. refl) (stuck_undone now) h

cancel_open-IsDone :
    (rid now : ℕ) (s : BlastStore)
    → IsDone rid s.rows
    → IsDone rid (cancel_open_blast_recipients now s).rows
unfolding cancel_open_blast_recipients
cancel_open-IsDone rid now s h =
    update_many-IsDone rid (with_status is_row_open) _ s.rows (λ r. refl) open_undone h

retry-IsDone :
    (rid now : ℕ) (s : BlastStore) → IsDone rid s.rows → IsDone rid (press now retry s).rows
unfolding press retry_failed_blast restart_blast enqueue_blast
retry-IsDone rid now s h =
    let reset : BlastStore = record s {
      rows = update_many (with_status is_failed_row) (reset_row now) s.rows;
    } in
    let requeued = requeue_stuck_blast_recipients now reset in
    let again : IsDone rid requeued.rows = requeue-IsDone rid now reset (
      update_many-IsDone rid (with_status is_failed_row) (reset_row now) s.rows (λ r. refl)
        failed_undone h) in
    elim (Bool-cases (is_blast_cancelled s.blast.status)) [
      | inl c ↦ rw (c, press) h
      | inr nc ↦
          elim (Bool-cases (
            count_rows is_failed_row s.rows == 0
            && not (is_blast_paused s.blast.status && ltb 0 (count is_takeable requeued.rows)))) [
              | inl y ↦ rw (nc, y, press) again
              | inr n ↦ rw (nc, n, press) again
            ]
    ]

press-IsDone :
    (rid now : ℕ) (b : Button) (s : BlastStore)
    → IsDone rid s.rows
    → IsDone rid (press now b s).rows
unfolding press pause_blast resume_blast retry_failed_blast cancel_blast restart_blast
    set_blast_status enqueue_blast
press-IsDone rid now pause s h = elim (Bool-cases (is_blast_sending s.blast.status)) [
  | inl y ↦ rw y h
  | inr n ↦ rw n h
]
press-IsDone rid now resume s h = elim (Bool-cases (is_blast_paused s.blast.status)) [
  | inl y ↦ rw y (requeue-IsDone rid now s h)
  | inr n ↦ rw n h
]
press-IsDone rid now retry s h = retry-IsDone rid now s h
press-IsDone rid now cancel s h = elim (Bool-cases (is_finished s.blast.status)) [
  | inl y ↦ rw y h
  | inr n ↦ rw n (cancel_open-IsDone rid now (set_blast_status BlastStatus.cancelled s) h)
]

press-IsLeft :
    (rid n now : ℕ) (b : Button) (s : BlastStore) → IsLeft rid n s → IsLeft rid n (press now b s)
press-IsLeft rid n now b s (done, calls) =
    (press-IsDone rid now b s done, rw (press-calls now b s) calls)

press_all-IsLeft :
    (rid n now : ℕ) (bs : List Button) (s : BlastStore)
    → IsLeft rid n s
    → IsLeft rid n (press_all now bs s)
unfolding press_all
press_all-IsLeft rid n now [] s h = h
press_all-IsLeft rid n now (b ∷ bs) s h =
    press_all-IsLeft rid n now bs (press now b s) (press-IsLeft rid n now b s h)

close_cancelled-IsLeft :
    (rid n now : ℕ) (s : BlastStore) → IsLeft rid n s → IsLeft rid n (close_cancelled now s)
unfolding recount_blast cancel_open_blast_recipients
close_cancelled-IsLeft rid n now s (done, calls) = (cancel_open-IsDone rid now s done, calls)

send_batch-IsLeft :
    (cfg : BlastConfig) (rid n now : ℕ) (world : ℕ → Turn) (rids : List ℕ) (s : BlastStore)
    → IsLeft rid n s
    → IsLeft rid n (send_batch cfg now world rids s).0
unfolding send_batch
send_batch-IsLeft cfg rid n now world [] s h = h
send_batch-IsLeft cfg rid n now world (i ∷ rids) s h =
    let fresh = press_all now (world i).buttons s in
    let left = press_all-IsLeft rid n now (world i).buttons s h in
    elim (Bool-cases (is_blast_paused fresh.blast.status)) [
      | inl p ↦ rw (p, send_batch) left
      | inr np ↦ elim (Bool-cases (is_blast_cancelled fresh.blast.status)) [
        | inl c ↦ rw (np, c, send_batch) (close_cancelled-IsLeft rid n now fresh left)
        | inr nc ↦
            rw (np, nc, send_batch)
              (send_batch-IsLeft cfg rid n now world rids
                (process_blast_recipient cfg now i (world i).sending fresh)
                (process-IsLeft cfg now i rid n (world i).sending fresh left))
      ]
    ]

finalize_blast-rows :
    (s : BlastStore) → ((finalize_blast s).rows ≡ s.rows) × ((finalize_blast s).calls ≡ s.calls)
unfolding finalize_blast recount_blast set_blast_status
finalize_blast-rows s = ground arith

after_batch-IsLeft : (rid n : ℕ) (s : BlastStore) → IsLeft rid n s → IsLeft rid n (after_batch s)
unfolding after_batch recount_blast enqueue_blast
after_batch-IsLeft rid n s h = elim (Bool-cases (ltb 0 (count_rows is_row_open s.rows))) [
  | inl y ↦ rw (y, after_batch) h
  | inr n ↦
      let (rows, calls) = finalize_blast-rows (recount_blast s) in
      rw (n, after_batch) (rw rows h.0, rw calls h.1)
]

idle_blast-IsLeft : (rid n : ℕ) (s : BlastStore) → IsLeft rid n s → IsLeft rid n (idle_blast s)
unfolding idle_blast enqueue_blast
idle_blast-IsLeft rid n s h = elim (Bool-cases (count_rows is_row_open s.rows == 0)) [
  | inl y ↦
      let (rows, calls) = finalize_blast-rows s in rw (y, idle_blast) (rw rows h.0, rw calls h.1)
  | inr n ↦ rw (n, idle_blast) h
]

send_due-IsLeft :
    (cfg : BlastConfig) (rid n now : ℕ) (world : ℕ → Turn) (s : BlastStore)
    → IsLeft rid n s
    → IsLeft rid n (send_due cfg now world s)
unfolding send_due
send_due-IsLeft cfg rid n now world s h =
    let batch = batch_of cfg now s.rows in
    let sent = send_batch-IsLeft cfg rid n now world batch s h in
    elim (Bool-cases (length batch == 0)) [
      | inl y ↦ rw (y, send_due) (idle_blast-IsLeft rid n s h)
      | inr ny ↦ elim (Bool-cases (send_batch cfg now world batch s).1) [
        | inl ended ↦
            rw (ny, ended, send_due)
              (after_batch-IsLeft rid n (send_batch cfg now world batch s).0 sent)
        | inr broken ↦ rw (ny, broken, send_due) sent
      ]
    ]

job-IsLeft :
    (cfg : BlastConfig) (rid n now : ℕ) (world : ℕ → Turn) (s : BlastStore)
    → IsLeft rid n s
    → IsLeft rid n (send_blast_messages cfg now world s)
unfolding send_blast_messages set_blast_status
job-IsLeft cfg rid n now world s h = elim (Bool-cases (is_blast_paused s.blast.status)) [
  | inl p ↦ rw (p, send_blast_messages) h
  | inr np ↦ elim (Bool-cases (is_blast_cancelled s.blast.status)) [
    | inl c ↦ rw (np, c, send_blast_messages) (close_cancelled-IsLeft rid n now s h)
    | inr nc ↦ elim (Bool-cases (is_finished s.blast.status)) [
      | inl f ↦ rw (np, nc, f, send_blast_messages) h
      | inr nf ↦
          rw (np, nc, nf, send_blast_messages)
            (send_due-IsLeft cfg rid n now world (set_blast_status BlastStatus.sending s) h)
    ]
  ]
]

run-IsLeft :
    (cfg : BlastConfig) (rid n : ℕ) (es : List BlastEvent) (s : BlastStore)
    → IsLeft rid n s
    → IsLeft rid n (run_events cfg es s)
unfolding run_events blast_step
run-IsLeft cfg rid n [] s h = h
run-IsLeft cfg rid n (job now world ∷ es) s h =
    run-IsLeft cfg rid n es (send_blast_messages cfg now world s)
      (job-IsLeft cfg rid n now world s h)
run-IsLeft cfg rid n (button now b ∷ es) s h =
    run-IsLeft cfg rid n es (press now b s) (press-IsLeft rid n now b s h)

-- A recipient that is neither pending, processing, retrying nor failed, because it was sent to or
-- cancelled, stays so through any jobs and buttons, `retry-failed` included, in any order, and the
-- provider is not called for it again.
pub IsDone-never_called :
    (cfg : BlastConfig) (rid : ℕ) (es : List BlastEvent) (s : BlastStore)
    → IsDone rid s.rows
    → IsDone rid (run_events cfg es s).rows
      × (blast_calls_for rid (run_events cfg es s) ≡ blast_calls_for rid s)
IsDone-never_called cfg rid es s h = run-IsLeft cfg rid (blast_calls_for rid s) es s (h, refl)
