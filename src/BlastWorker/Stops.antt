-- ===== src/BlastWorker/Stops.antt =====
-- The loop of `send_blast_messages` when the blast is paused or cancelled under way.
use ai_wa_chat_agent_be.Prelude.{
  ℕ, ◌≡◌, refl, ◌∙◌, true, false, ◌||◌, List, [], ◌∷◌, ◌++◌, arith, inl, inr, Bool-cases,
}
use ai_wa_chat_agent_be.Engine.Store.{update_many}
use ai_wa_chat_agent_be.BlastWorker.Store.{
  BlastStatus, BlastRecipientStatus, BlastRecipient, BlastStore, BlastConfig, is_blast_paused,
  is_blast_cancelled, is_row_open, count_rows, with_status, recount_blast,
  cancel_open_blast_recipients, set_blast_status, enqueue_blast,
}
use ai_wa_chat_agent_be.BlastWorker.Send.{process_blast_recipient}
use ai_wa_chat_agent_be.BlastWorker.Buttons.{
  pause_blast, resume_blast, retry_failed_blast, cancel_blast, restart_blast,
  requeue_stuck_blast_recipients,
}
use ai_wa_chat_agent_be.BlastWorker.Jobs.{
  Button, pause, resume, retry, cancel, press, press_all, Turn, send_batch,
}

pub press-calls : (now : ℕ) (b : Button) (s : BlastStore) → (press now b s).calls ≡ s.calls
unfolding press pause_blast resume_blast retry_failed_blast cancel_blast restart_blast
    requeue_stuck_blast_recipients cancel_open_blast_recipients set_blast_status enqueue_blast
press-calls now pause s = ground arith
press-calls now resume s = ground arith
press-calls now retry s = ground arith
press-calls now cancel s = ground arith

pub press_all-calls :
    (now : ℕ) (bs : List Button) (s : BlastStore) → (press_all now bs s).calls ≡ s.calls
unfolding press_all
press_all-calls now [] s = refl
press_all-calls now (b ∷ bs) s = press_all-calls now bs (press now b s) ∙ press-calls now b s

pub cancel_open-closes :
    (now : ℕ) (rs : List BlastRecipient)
    → count_rows is_row_open (
        update_many
          (with_status is_row_open)
          (λ r. record r { status = BlastRecipientStatus.cancelled; updated_at = now })
          rs)
      ≡ 0
unfolding update_many is_row_open
cancel_open-closes now [] = refl
cancel_open-closes now (r ∷ rs) = ground (arith, cancel_open-closes now rs)

-- What the loop did up to a recipient, and what it does from there.
send_batch-append :
    (cfg : BlastConfig) (now : ℕ) (world : ℕ → Turn) (rids more : List ℕ) (s t : BlastStore)
    → send_batch cfg now world rids s ≡ (t, true)
    → send_batch cfg now world (rids ++ more) s ≡ send_batch cfg now world more t
unfolding send_batch
send_batch-append cfg now world [] more s t e = cc
send_batch-append cfg now world (rid ∷ rids) more s t e =
    let fresh = press_all now (world rid).buttons s in
    elim (Bool-cases (is_blast_paused fresh.blast.status)) [
      | inl p ↦ cc
      | inr np ↦ elim (Bool-cases (is_blast_cancelled fresh.blast.status)) [
        | inl c ↦ cc
        | inr nc ↦
            rw (np, nc)
              (send_batch-append cfg now world rids more
                (process_blast_recipient cfg now rid (world rid).sending fresh) t
                (rw (np, nc) at e))
      ]
    ]

paused_alive : (st : BlastStatus) → is_blast_paused st ≡ true → is_blast_cancelled st ≡ false
unfolding is_blast_paused is_blast_cancelled
paused_alive st h = ground arith

-- If the blast is paused or cancelled when the loop comes to a recipient, then the job breaks off
-- there: the provider is called for nobody any more, and if the blast is cancelled, nobody is left
-- pending, processing or retrying.
pub send_batch-breaks_off :
    (cfg : BlastConfig) (now rid : ℕ) (world : ℕ → Turn) (rids more : List ℕ) (s t : BlastStore)
    → send_batch cfg now world rids s ≡ (t, true)
    → let fresh = press_all now (world rid).buttons t in
      (is_blast_paused fresh.blast.status || is_blast_cancelled fresh.blast.status) ≡ true
      → let (u, ended) = send_batch cfg now world (rids ++ rid ∷ more) s in
        (ended ≡ false)
        × (u.calls ≡ t.calls)
        × (is_blast_cancelled fresh.blast.status ≡ true → count_rows is_row_open u.rows ≡ 0)
unfolding send_batch recount_blast cancel_open_blast_recipients is_blast_paused is_blast_cancelled
send_batch-breaks_off cfg now rid world rids more s t e stop =
    let fresh = press_all now (world rid).buttons t in
    let same = press_all-calls now (world rid).buttons t in
    rw (send_batch-append cfg now world rids (rid ∷ more) s t e)
      (elim (Bool-cases (is_blast_paused fresh.blast.status)) [
        | inl p ↦ rw (p, send_batch) (refl, same, λ c. cc (paused_alive fresh.blast.status p))
        | inr np ↦
            let c : is_blast_cancelled fresh.blast.status ≡ true = rw np at stop in
            rw (np, c, send_batch) (refl, same, λ _. cancel_open-closes now fresh.rows)
      ])
