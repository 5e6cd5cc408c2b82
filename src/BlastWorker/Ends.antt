-- ===== src/BlastWorker/Ends.antt =====
-- The chain of jobs that `send_blast_messages` enqueues, where nothing interrupts it.
use ai_wa_chat_agent_be.Prelude.{
  ℕ, zero, suc, ◌+◌, ◌-◌, ◌*◌, ◌≤◌, ◌<◌, ◌≡◌, refl, ◌∙◌, ◌⊎◌, Bool, true, false, ◌&&◌, some, List,
  [], ◌∷◌, arith, inl, inr, max, select, take, length, ◌==◌, ltb, count, Bool-cases, is_some,
}
use native.Mathlib.Nat.{mul-le-mul_right}
use ai_wa_chat_agent_be.Engine.Store.{find_one}
use ai_wa_chat_agent_be.BlastWorker.Store.{
  BlastStatus, BlastRecipient, BlastStore, BlastConfig, is_finished, is_blast_paused,
  is_blast_cancelled, is_row_open, is_pending, is_retrying, is_processing, count_rows, row_has_id,
  recount_blast, finalize_blast, final_blast_status, enqueue_blast, set_blast_status,
}
use ai_wa_chat_agent_be.BlastWorker.Send.{is_takeable}
use ai_wa_chat_agent_be.BlastWorker.Jobs.{
  Turn, is_row_due, row_ids, batch_of, send_batch, after_batch, idle_blast, send_due,
  send_blast_messages, run_blast,
}
use ai_wa_chat_agent_be.BlastWorker.Rows.{IsUnique}
use ai_wa_chat_agent_be.BlastWorker.Weight.{weight, longest_delay, AllDueBy, is_due_by}
use ai_wa_chat_agent_be.BlastWorker.Batch.{IsCalm, IsOn, send_batch-IsAfter, send_batch-spends}

-- The end of a blast: a terminal status, nobody left to send to, and no job waiting.
abbrev pub IsEnded : BlastStore → Type 0
IsEnded s =
    (is_finished s.blast.status ≡ true) × (count_rows is_row_open s.rows ≡ 0) × (s.jobs ≡ [])

module _ (p q : BlastRecipient → Bool)
    (weaker : (r : BlastRecipient) → p r ≡ true → q r ≡ true) where
  -- The first of a batch is found again by its id.
  first_found :
      (n rid : ℕ) (rids : List ℕ) (rs : List BlastRecipient)
      → row_ids (take (suc n) (select p rs)) ≡ rid ∷ rids
      → is_some (find_one (λ r. row_has_id rid r && q r) rs) ≡ true
  unfolding find_one
  first_found n rid rids [] e = cc
  first_found n rid rids (r ∷ rs) e = ground (arith, weaker r, first_found n rid rids rs)

empty_batch :
    (p : BlastRecipient → Bool) (n : ℕ) (rs : List BlastRecipient)
    → row_ids (take (suc n) (select p rs)) ≡ []
    → count p rs ≡ 0
empty_batch p n [] e = refl
empty_batch p n (r ∷ rs) e = ground (arith, empty_batch p n rs)

due_takeable : (now : ℕ) (r : BlastRecipient) → is_row_due now r ≡ true → is_takeable r ≡ true
due_takeable now r h = ground arith

open_due :
    (now h : ℕ) (r : BlastRecipient)
    → is_due_by h r ≡ true
    → h ≤ now
    → is_row_open r.status ≡ true
    → is_row_due now r ≡ true
unfolding is_row_open is_pending is_retrying is_processing
open_due now h r due late o = ground arith

-- Once the last retry is due, whoever is open is due.
open-le-due :
    (now h : ℕ) (rs : List BlastRecipient)
    → AllDueBy h rs
    → h ≤ now
    → count_rows is_row_open rs ≤ count (is_row_due now) rs
open-le-due now h [] due late = omega arith
open-le-due now h (r ∷ rs) (d, ds) late =
    ground (arith, open_due now h r d late, open-le-due now h rs ds late)

AllDueBy-later : (h k : ℕ) (rs : List BlastRecipient) → h ≤ k → AllDueBy h rs → AllDueBy k rs
AllDueBy-later h k [] le due = tt
AllDueBy-later h k (r ∷ rs) le (d, ds) = (ground (arith, d), AllDueBy-later h k rs le ds)

final_blast_status-finished : (s : BlastStore) → is_finished (final_blast_status s.blast) ≡ true
unfolding final_blast_status is_finished
final_blast_status-finished s = ground arith

finalize_blast-IsEnded :
    (s : BlastStore)
    → is_finished s.blast.status ≡ false
    → count_rows is_row_open s.rows ≡ 0
    → s.jobs ≡ []
    → IsEnded (finalize_blast s)
unfolding finalize_blast recount_blast set_blast_status
finalize_blast-IsEnded s on closed empty =
    rw (on, finalize_blast) (final_blast_status-finished (recount_blast s), closed, empty)

-- What an uninterrupted job comes to, of which `h` bounds the retries: the end; nothing was due, and
-- the next job follows in 5 seconds; or work was done, and the next follows in 300 milliseconds.
abbrev IsWaiting : ℕ → ℕ → BlastStore → BlastStore → Type 0
IsWaiting now h s u =
    (u.jobs ≡ 5000 ∷ []) × (u.blast.status ≡ BlastStatus.sending) × (u.rows ≡ s.rows) × (now < h)

abbrev IsFurther : BlastConfig → ℕ → BlastStore → BlastStore → Type 0
IsFurther cfg now s u =
    (u.jobs ≡ 300 ∷ [])
    × (u.blast.status ≡ BlastStatus.sending)
    × IsUnique u.rows
    × AllDueBy (now + longest_delay cfg) u.rows
    × (weight cfg u.rows < weight cfg s.rows)

abbrev JobResult : BlastConfig → ℕ → ℕ → BlastStore → BlastStore → Type 0
JobResult cfg now h s u = IsEnded u ⊎ IsWaiting now h s u ⊎ IsFurther cfg now s u

idle_blast-JobResult :
    (cfg : BlastConfig) (now h : ℕ) (s : BlastStore)
    → s.blast.status ≡ BlastStatus.sending
    → s.jobs ≡ []
    → AllDueBy h s.rows
    → count (is_row_due now) s.rows ≡ 0
    → JobResult cfg now h s (idle_blast s)
unfolding idle_blast enqueue_blast is_finished
idle_blast-JobResult cfg now h s on empty due nobody =
    elim (Bool-cases (count_rows is_row_open s.rows == 0)) [
      | inl y ↦
          rw (y, idle_blast) (inl (finalize_blast-IsEnded s (rw on refl) (ground (arith, y)) empty))
      | inr n ↦
          rw (n, idle_blast)
            (inr (inl (rw empty refl, on, refl, ground (arith, n, open-le-due now h s.rows due))))
    ]

after_batch-JobResult :
    (cfg : BlastConfig) (now h : ℕ) (s t : BlastStore)
    → t.blast.status ≡ BlastStatus.sending
    → t.jobs ≡ []
    → IsUnique t.rows
    → AllDueBy (now + longest_delay cfg) t.rows
    → weight cfg t.rows < weight cfg s.rows
    → JobResult cfg now h s (after_batch t)
unfolding after_batch recount_blast enqueue_blast is_finished
after_batch-JobResult cfg now h s t on empty u due less =
    elim (Bool-cases (ltb 0 (count_rows is_row_open t.rows))) [
      | inl y ↦ rw (y, after_batch) (inr (inr (rw empty refl, on, u, due, less)))
      | inr n ↦
          rw (n, after_batch)
            (inl (finalize_blast-IsEnded (recount_blast t) (rw on refl) (ground (arith, n)) empty))
    ]

send_due-JobResult :
    (cfg : BlastConfig) (now h : ℕ) (world : ℕ → Turn) (s : BlastStore)
    → IsCalm world
    → s.blast.status ≡ BlastStatus.sending
    → s.jobs ≡ []
    → IsUnique s.rows
    → AllDueBy h s.rows
    → h ≤ now + longest_delay cfg
    → JobResult cfg now h s (send_due cfg now world s)
unfolding send_due is_blast_paused is_blast_cancelled
send_due-JobResult cfg now h world s calm on empty u due soon = go (batch_of cfg now s.rows) refl
  where
    k : ℕ
    k = max 1 cfg.blast_batch_size - 1

    k_suc : max 1 cfg.blast_batch_size ≡ suc k
    k_suc = omega arith

    go :
        (batch : List ℕ)
        → batch_of cfg now s.rows ≡ batch
        → JobResult cfg now h s (send_due cfg now world s)
    go [] e =
        rw (e, send_due)
          (idle_blast-JobResult cfg now h s on empty due
            (empty_batch (is_row_due now) k s.rows (rw k_suc at e)))
    go (rid ∷ rids) e =
        let later = AllDueBy-later h (now + longest_delay cfg) s.rows soon due in
        let running : IsOn s = rw on (refl, refl) in
        let le : now + longest_delay cfg ≤ now + longest_delay cfg = omega arith in
        let ((b, j, v, d, w), ended) =
          send_batch-IsAfter cfg now (now + longest_delay cfg) world (rid ∷ rids) s calm le running
            u later in
        let found =
          first_found (is_row_due now) is_takeable (due_takeable now) k rid rids s.rows
            (rw k_suc at e) in
        let less =
          send_batch-spends cfg now (now + longest_delay cfg) rid world rids s calm le running u
            later found in
        let filled : (length (rid ∷ rids) == 0) ≡ false = ground arith in
        rw (e, filled, ended, send_due)
          (after_batch-JobResult cfg now h s (send_batch cfg now world (rid ∷ rids) s).0 (rw b on)
            (j ∙ empty) v d less)

not_finished_alive : (st : BlastStatus) → is_finished st ≡ false → is_blast_cancelled st ≡ false
unfolding is_finished is_blast_cancelled
not_finished_alive st h = ground arith

send_blast_messages-JobResult :
    (cfg : BlastConfig) (now h : ℕ) (world : ℕ → Turn) (s : BlastStore)
    → IsCalm world
    → is_blast_paused s.blast.status ≡ false
    → is_finished s.blast.status ≡ false
    → s.jobs ≡ []
    → IsUnique s.rows
    → AllDueBy h s.rows
    → h ≤ now + longest_delay cfg
    → JobResult cfg now h s (send_blast_messages cfg now world s)
unfolding send_blast_messages set_blast_status
send_blast_messages-JobResult cfg now h world s calm running alive empty u due soon =
    rw (running, not_finished_alive s.blast.status alive, alive, send_blast_messages)
      (send_due-JobResult cfg now h world (set_blast_status BlastStatus.sending s) calm refl empty u
        due soon)

-- Work done pays for the longest wait after it.
wait_paid : (a b d : ℕ) → a < b → a * (d + 2) + (d + 2) ≤ b * (d + 2)
wait_paid a b d h = omega (arith, mul-le-mul_right (d + 2) h)

-- enough fuel for the chain: each run of a recipient, and a wait for its retry
abbrev pub enough_fuel : BlastConfig → List BlastRecipient → ℕ
enough_fuel cfg rs = weight cfg rs * (longest_delay cfg + 2) + longest_delay cfg + 1

run_blast-fuel :
    (cfg : BlastConfig) (world : ℕ → ℕ → Turn) (fuel now h : ℕ) (s : BlastStore)
    → ((time : ℕ) → IsCalm (world time))
    → is_blast_paused s.blast.status ≡ false
    → is_finished s.blast.status ≡ false
    → IsUnique s.rows
    → AllDueBy h s.rows
    → h ≤ now + longest_delay cfg
    → weight cfg s.rows * (longest_delay cfg + 2) + (h - now) < fuel
    → (u : BlastStore) × (run_blast cfg world fuel now s ≡ some u) × IsEnded u
unfolding run_blast is_blast_paused is_finished
run_blast-fuel cfg world zero now h s calm running alive u due soon enough = absurd (omega arith)
run_blast-fuel cfg world (suc fuel) now h s calm running alive u due soon enough =
    let done = send_blast_messages cfg now (world now) (record s { jobs = [] }) in
    elim (send_blast_messages-JobResult cfg now h (world now) (record s { jobs = [] }) (calm now)
      running alive refl u due soon) [
        | inl (over, closed, empty) ↦ rw (empty, run_blast) (done, refl, (over, closed, empty))
        | inr (inl (next, on, same, early)) ↦
            rw (next, run_blast)
              (run_blast-fuel cfg world fuel (now + 5000) h done calm (rw on refl) (rw on refl)
                (rw same u) (rw same due) (omega arith) (rw same (omega arith)))
        | inr (inr (next, on, v, later, less)) ↦
            rw (next, run_blast)
              (run_blast-fuel cfg world fuel (now + 300) (now + longest_delay cfg) done calm
                (rw on refl) (rw on refl) v later (omega arith)
                (omega (arith, wait_paid _ _ (longest_delay cfg) less)))
      ]

-- Where every permit is given, the account is not rejected and no button is pressed, the chain of
-- jobs of a blast that is neither paused nor over ends within the fuel of `enough_fuel`, whatever the
-- provider answers: no job waits, the blast is completed, partially completed or failed, and nobody is
-- pending, processing or retrying. At first no id stands twice, nobody is processing, and no retry is
-- further off than the longest delay.
pub run_blast-IsEnded :
    (cfg : BlastConfig) (world : ℕ → ℕ → Turn) (now fuel : ℕ) (s : BlastStore)
    → ((time : ℕ) → IsCalm (world time))
    → is_blast_paused s.blast.status ≡ false
    → is_finished s.blast.status ≡ false
    → IsUnique s.rows
    → AllDueBy (now + longest_delay cfg) s.rows
    → enough_fuel cfg s.rows ≤ fuel
    → (u : BlastStore) × (run_blast cfg world fuel now s ≡ some u) × IsEnded u
run_blast-IsEnded cfg world now fuel s calm running alive u due enough =
    run_blast-fuel cfg world fuel now (now + longest_delay cfg) s calm running alive u due
      (omega arith) (omega arith)
