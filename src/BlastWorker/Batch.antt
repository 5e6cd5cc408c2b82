-- ===== src/BlastWorker/Batch.antt =====
-- One batch of `send_blast_messages` where nothing interrupts it: every permit is given, the account
-- is not rejected and no button is pressed.
use ai_wa_chat_agent_be.Prelude.{
  ℕ, ◌+◌, ◌≤◌, ◌<◌, ◌≡◌, refl, ◌∙◌, Bool, true, false, ◌&&◌, Option, none, some, List, [], ◌∷◌,
  arith, inl, inr, Bool-cases, Option-cases, is_some,
}
use ai_wa_chat_agent_be.Engine.Store.{find_one, update_one}
use ai_wa_chat_agent_be.Engine.Errors.{SendError, account_blocked}
use ai_wa_chat_agent_be.Engine.Send.{has_message}
use ai_wa_chat_agent_be.BlastWorker.Store.{
  BlastRecipient, BlastStore, BlastConfig, is_blast_paused, is_blast_cancelled, row_has_id, set_row,
}
use ai_wa_chat_agent_be.BlastWorker.Send.{
  BlastAnswer, accepted, rejected, Sending, is_takeable, take_row, call_for, handle_blast_error,
  answer_blast, send_to_row, process_blast_recipient,
}
use ai_wa_chat_agent_be.BlastWorker.Jobs.{press_all, Turn, send_batch}
use ai_wa_chat_agent_be.BlastWorker.Rows.{IsUnique, count-update_one, All-update_one}
use ai_wa_chat_agent_be.BlastWorker.OneWrite.{
  verdict, outcome_row, outcome_row-id, process_blast_recipient-outcome_row,
}
use ai_wa_chat_agent_be.BlastWorker.Weight.{
  row_weight, weight, not-true, is_smooth, longest_delay, AllDueBy, outcome_row-spends,
  outcome_row-due,
}

-- Nothing interrupts the sending to anybody.
abbrev pub IsCalm : (ℕ → Turn) → Type 0
IsCalm world =
    (rid : ℕ) → ((world rid).buttons ≡ []) × (is_smooth (verdict (world rid).sending) ≡ true)

-- `t` comes after `s` in a job: the same blast and queue, no more work left, and what is left is due
-- by `h`.
abbrev pub IsAfter : BlastConfig → ℕ → BlastStore → BlastStore → Type 0
IsAfter cfg h s t =
    (t.blast ≡ s.blast)
    × (t.jobs ≡ s.jobs)
    × IsUnique t.rows
    × AllDueBy h t.rows
    × (weight cfg t.rows ≤ weight cfg s.rows)

module _ (cfg : BlastConfig) (p : BlastRecipient → Bool) (f : BlastRecipient → BlastRecipient)
    (spends : (r : BlastRecipient) → p r ≡ true → row_weight cfg (f r) < row_weight cfg r) where
  weight-update_one : (rs : List BlastRecipient) → weight cfg (update_one p f rs) ≤ weight cfg rs
  unfolding update_one
  weight-update_one [] = omega arith
  weight-update_one (r ∷ rs) = elim (Bool-cases (p r)) [
    | inl y ↦ rw y (omega (arith, spends r y))
    | inr n ↦ rw n (omega (arith, weight-update_one rs))
  ]

  weight-update_one-found :
      (rs : List BlastRecipient)
      → is_some (find_one p rs) ≡ true
      → weight cfg (update_one p f rs) < weight cfg rs
  unfolding update_one find_one
  weight-update_one-found [] e = cc
  weight-update_one-found (r ∷ rs) e = elim (Bool-cases (p r)) [
    | inl y ↦ rw y (omega (arith, spends r y))
    | inr n ↦ rw n (omega (arith, weight-update_one-found rs (rw n at e)))
  ]

abbrev Keeps : BlastStore → BlastStore → Type 0
Keeps s t = (t.blast ≡ s.blast) × (t.jobs ≡ s.jobs)

handle_blast_error-Keeps :
    (cfg : BlastConfig) (now rand rid attempts : ℕ) (e : SendError) (s : BlastStore)
    → account_blocked e ≡ false
    → Keeps s (handle_blast_error cfg now rand rid attempts e s)
unfolding handle_blast_error set_row
handle_blast_error-Keeps cfg now rand rid attempts e s ok =
    rw (ok, handle_blast_error) (ground arith)

send_to_row-Keeps :
    (cfg : BlastConfig) (now rid attempts : ℕ) (t : Sending) (s : BlastStore)
    → is_smooth (verdict t) ≡ true
    → Keeps s (send_to_row cfg now rid attempts t s)
unfolding send_to_row answer_blast set_row verdict
send_to_row-Keeps cfg now rid attempts t s = go t.refusal t.content_error t.answer t.permit
  where
    go :
        (x y : Option SendError) (z : BlastAnswer) (p : Bool)
        → let u : Sending = record t { refusal = x; content_error = y; answer = z; permit = p } in
          is_smooth (verdict u) ≡ true → Keeps s (send_to_row cfg now rid attempts u s)
    go (some e) y z p h = handle_blast_error-Keeps cfg now t.rand rid attempts e s (not-true h)
    go none y z false h = cc
    go none (some e) z true h =
        handle_blast_error-Keeps cfg now t.rand rid attempts e s (not-true h)
    go none none (accepted mid st) true h = (refl, refl)
    go none none (rejected e) true h =
        handle_blast_error-Keeps cfg now t.rand rid attempts e (call_for rid s) (not-true h)

process-Keeps :
    (cfg : BlastConfig) (now rid : ℕ) (t : Sending) (s : BlastStore)
    → is_smooth (verdict t) ≡ true
    → Keeps s (process_blast_recipient cfg now rid t s)
unfolding process_blast_recipient set_row
process-Keeps cfg now rid t s smooth =
    elim (Option-cases (find_one (λ r. row_has_id rid r && is_takeable r) s.rows)) [
      | inl e ↦ rw (e, process_blast_recipient) (refl, refl)
      | inr (r, e) ↦ elim (Bool-cases (s.blast.is_meta && has_message r.provider_message_id)) [
        | inl m ↦ rw (e, m, process_blast_recipient) (refl, refl)
        | inr nm ↦
            rw (e, nm, process_blast_recipient)
              (send_to_row-Keeps cfg now rid (r.attempt_count + 1) t
                (record s {
                  rows = update_one (λ r. row_has_id rid r && is_takeable r) (take_row now) s.rows;
                })
                smooth)
      ]
    ]

found_takeable :
    (rid : ℕ) (r : BlastRecipient)
    → (row_has_id rid r && is_takeable r) ≡ true
    → is_takeable r ≡ true
found_takeable rid r h = ground arith

-- What one calm turn leaves; the work is less where the recipient could be taken.
process-IsAfter :
    (cfg : BlastConfig) (now h rid : ℕ) (t : Sending) (s : BlastStore)
    → is_smooth (verdict t) ≡ true
    → now + longest_delay cfg ≤ h
    → IsUnique s.rows
    → AllDueBy h s.rows
    → IsAfter cfg h s (process_blast_recipient cfg now rid t s)
process-IsAfter cfg now h rid t s smooth late u due =
    let (same, queue) = process-Keeps cfg now rid t s smooth in
    let p : BlastRecipient → Bool = λ r. row_has_id rid r && is_takeable r in
    let f : BlastRecipient → BlastRecipient = outcome_row cfg now s.blast.is_meta t in
    (
      same,
      queue,
      rw (process_blast_recipient-outcome_row cfg now rid t s u) (λ i.
          rw (count-update_one i p f (outcome_row-id cfg now s.blast.is_meta t) s.rows) (u i)),
      rw (process_blast_recipient-outcome_row cfg now rid t s u) (
          All-update_one p f (λ r _ _. outcome_row-due cfg now h s.blast.is_meta t r smooth late)
            s.rows due),
      rw (process_blast_recipient-outcome_row cfg now rid t s u) (
          weight-update_one cfg p f
            (λ r y. outcome_row-spends cfg now s.blast.is_meta t r smooth (found_takeable rid r y))
            s.rows),
    )

process-spends :
    (cfg : BlastConfig) (now rid : ℕ) (t : Sending) (s : BlastStore)
    → is_smooth (verdict t) ≡ true
    → IsUnique s.rows
    → is_some (find_one (λ r. row_has_id rid r && is_takeable r) s.rows) ≡ true
    → weight cfg (process_blast_recipient cfg now rid t s).rows < weight cfg s.rows
process-spends cfg now rid t s smooth u e =
    rw (process_blast_recipient-outcome_row cfg now rid t s u) (
      weight-update_one-found cfg (λ r. row_has_id rid r && is_takeable r)
        (outcome_row cfg now s.blast.is_meta t)
        (λ r y. outcome_row-spends cfg now s.blast.is_meta t r smooth (found_takeable rid r y))
        s.rows e)

-- The blast sends, so that no turn breaks the loop off.
abbrev pub IsOn : BlastStore → Type 0
IsOn s = (is_blast_paused s.blast.status ≡ false) × (is_blast_cancelled s.blast.status ≡ false)

send_batch-turn :
    (cfg : BlastConfig) (now rid : ℕ) (world : ℕ → Turn) (rids : List ℕ) (s : BlastStore)
    → IsCalm world
    → IsOn s
    → send_batch cfg now world (rid ∷ rids) s
      ≡ send_batch cfg now world rids (process_blast_recipient cfg now rid (world rid).sending s)
unfolding send_batch press_all
send_batch-turn cfg now rid world rids s calm (running, alive) =
    rw ((calm rid).0, running, alive, send_batch) refl

pub send_batch-IsAfter :
    (cfg : BlastConfig) (now h : ℕ) (world : ℕ → Turn) (rids : List ℕ) (s : BlastStore)
    → IsCalm world
    → now + longest_delay cfg ≤ h
    → IsOn s
    → IsUnique s.rows
    → AllDueBy h s.rows
    → IsAfter cfg h s (send_batch cfg now world rids s).0
      × ((send_batch cfg now world rids s).1 ≡ true)
unfolding send_batch
send_batch-IsAfter cfg now h world [] s calm late on u due =
    ((refl, refl, u, due, omega arith), refl)
send_batch-IsAfter cfg now h world (rid ∷ rids) s calm late on u due =
    let first = process_blast_recipient cfg now rid (world rid).sending s in
    let (b, j, v, d, w) =
      process-IsAfter cfg now h rid (world rid).sending s (calm rid).1 late u due in
    let (after, ended) = send_batch-IsAfter cfg now h world rids first calm late (rw b on) v d in
    let (b', j', v', d', w') = after in
    rw (send_batch-turn cfg now rid world rids s calm on)
      ((b' ∙ b, j' ∙ j, v', d', omega arith), ended)

pub send_batch-spends :
    (cfg : BlastConfig) (now h rid : ℕ) (world : ℕ → Turn) (rids : List ℕ) (s : BlastStore)
    → IsCalm world
    → now + longest_delay cfg ≤ h
    → IsOn s
    → IsUnique s.rows
    → AllDueBy h s.rows
    → is_some (find_one (λ r. row_has_id rid r && is_takeable r) s.rows) ≡ true
    → weight cfg (send_batch cfg now world (rid ∷ rids) s).0.rows < weight cfg s.rows
send_batch-spends cfg now h rid world rids s calm late on u due e =
    let first = process_blast_recipient cfg now rid (world rid).sending s in
    let (b, j, v, d, w) =
      process-IsAfter cfg now h rid (world rid).sending s (calm rid).1 late u due in
    let ((b', j', v', d', w'), ended) =
      send_batch-IsAfter cfg now h world rids first calm late (rw b on) v d in
    let less = process-spends cfg now rid (world rid).sending s (calm rid).1 u e in
    rw (send_batch-turn cfg now rid world rids s calm on) (omega arith)
