-- ===== src/BlastWorker/Weight.antt =====
-- What is left to do for the recipients of a blast, and what one run of `_process_blast_recipient`
-- leaves of it where the permit is given and the account is not rejected.
use ai_wa_chat_agent_be.Prelude.{
  ℕ, ◌+◌, ◌-◌, ◌*◌, ◌≤◌, ◌<◌, ◌≡◌, refl, sym, Bool, true, false, not, ◌&&◌, ◌||◌, List, [], ◌∷◌,
  arith, max, inl, inr, leb, if◌then◌else◌, Bool-cases, All,
}
use ai_wa_chat_agent_be.Engine.Errors.{
  SendError, is_retryable_category, account_blocked, compute_retry_delay_seconds,
}
use ai_wa_chat_agent_be.Engine.Send.{has_message}
use ai_wa_chat_agent_be.BlastWorker.Store.{
  BlastRecipient, BlastConfig, is_row_open, is_pending, is_retrying, is_processing, with_status,
}
use ai_wa_chat_agent_be.BlastWorker.Send.{Sending, is_takeable}
use ai_wa_chat_agent_be.BlastWorker.Jobs.{retry_is_due}
use ai_wa_chat_agent_be.BlastWorker.OneWrite.{
  Verdict, deferred, raised, accepted_as, verdict, after_error, outcome_row, sent_before,
  by_verdict, after_accept, outcome_row-sent,
}

-- The runs that may still be spent on a recipient, at most; 0 for a closed one.
abbrev pub row_weight : BlastConfig → BlastRecipient → ℕ
row_weight cfg r =
    if is_row_open r.status then 1 + (cfg.retries.whatsapp_max_retries + 1 - r.attempt_count) else 0

abbrev pub weight : BlastConfig → List BlastRecipient → ℕ
weight cfg [] = 0
weight cfg (r ∷ rs) = row_weight cfg r + weight cfg rs

-- the permit was given, and the account is not rejected
abbrev pub is_smooth : Verdict → Bool
is_smooth deferred = false
is_smooth (raised e) = not (account_blocked e)
is_smooth (accepted_as mid st) = true

-- the longest delay of a retry, in milliseconds
abbrev pub longest_delay : BlastConfig → ℕ
longest_delay cfg = 1000 * max (max 1 cfg.retries.retry_base) cfg.retries.retry_max

-- Nobody works on it, and if it waits for a retry, then not beyond `h`.
abbrev pub is_due_by : ℕ → BlastRecipient → Bool
is_due_by h r =
    not (with_status is_processing r)
    && (not (with_status is_retrying r) || retry_is_due h r.next_retry_at)

abbrev pub AllDueBy : ℕ → List BlastRecipient → Type 0
AllDueBy h rs = All (λ r. is_due_by h r ≡ true) rs

delay_le :
    (cfg : BlastConfig) (rand attempts : ℕ)
    → 1000 * compute_retry_delay_seconds cfg.retries rand attempts ≤ longest_delay cfg
unfolding compute_retry_delay_seconds
delay_le cfg rand attempts = ground arith

closed_due : (h : ℕ) (r : BlastRecipient) → is_row_open r.status ≡ false → is_due_by h r ≡ true
unfolding is_row_open is_processing is_retrying
closed_due h r e = go r.status e
  where
    go : (st : _) → is_row_open st ≡ false → is_due_by h (record r { status = st }) ≡ true
    go st e = ground arith

takeable_open : (r : BlastRecipient) → is_takeable r ≡ true → is_row_open r.status ≡ true
unfolding is_row_open is_pending is_retrying
takeable_open r h = ground arith

pub not-true : {b : Bool} → not b ≡ true → b ≡ false
not-true {b = true} h = sym h
not-true {b = false} h = refl

closed_spends :
    (cfg : BlastConfig) (r x : BlastRecipient)
    → is_takeable r ≡ true
    → is_row_open x.status ≡ false
    → row_weight cfg x < row_weight cfg r
closed_spends cfg r x takeable closed = rw (closed, takeable_open r takeable) (omega arith)

-- A retryable error leaves attempts to spend, one fewer; any other closes the recipient.
after_error-spends :
    (cfg : BlastConfig) (now rand : ℕ) (e : SendError) (r : BlastRecipient)
    → account_blocked e ≡ false
    → is_takeable r ≡ true
    → row_weight cfg (after_error cfg now rand e r) < row_weight cfg r
unfolding after_error is_row_open
after_error-spends cfg now rand e r ok takeable =
    elim (Bool-cases (
      is_retryable_category e.category
      && leb (r.attempt_count + 1) cfg.retries.whatsapp_max_retries)) [
        | inl y ↦ rw (ok, y, after_error, takeable_open r takeable) (ground (arith, y))
        | inr n ↦ rw (ok, n, after_error, takeable_open r takeable) (omega arith)
      ]

after_error-due :
    (cfg : BlastConfig) (now rand h : ℕ) (e : SendError) (r : BlastRecipient)
    → account_blocked e ≡ false
    → now + longest_delay cfg ≤ h
    → is_due_by h (after_error cfg now rand e r) ≡ true
unfolding after_error is_retrying is_processing
after_error-due cfg now rand h e r ok late =
    elim (Bool-cases (
      is_retryable_category e.category
      && leb (r.attempt_count + 1) cfg.retries.whatsapp_max_retries)) [
        | inl y ↦
            rw (ok, y, after_error)
              (let d = delay_le cfg rand (r.attempt_count + 1) in ground arith)
        | inr n ↦ rw (ok, n, after_error) refl
      ]

pub outcome_row-spends :
    (cfg : BlastConfig) (now : ℕ) (is_meta : Bool) (t : Sending) (r : BlastRecipient)
    → is_smooth (verdict t) ≡ true
    → is_takeable r ≡ true
    → row_weight cfg (outcome_row cfg now is_meta t r) < row_weight cfg r
unfolding outcome_row is_row_open
outcome_row-spends cfg now is_meta t r smooth takeable =
    elim (Bool-cases (is_meta && has_message r.provider_message_id)) [
      | inl m ↦
          rw (outcome_row-sent cfg now is_meta t r m)
            (closed_spends cfg r (sent_before now r) takeable refl)
      | inr nm ↦ rw (nm, outcome_row) (go (verdict t) smooth)
    ]
  where
    go :
        (v : Verdict)
        → is_smooth v ≡ true
        → row_weight cfg (by_verdict cfg now is_meta t.rand v r) < row_weight cfg r
    go deferred s = cc
    go (raised e) s = after_error-spends cfg now t.rand e r (not-true s) takeable
    go (accepted_as mid st) s =
        closed_spends cfg r (after_accept now is_meta mid st r) takeable refl

pub outcome_row-due :
    (cfg : BlastConfig) (now h : ℕ) (is_meta : Bool) (t : Sending) (r : BlastRecipient)
    → is_smooth (verdict t) ≡ true
    → now + longest_delay cfg ≤ h
    → is_due_by h (outcome_row cfg now is_meta t r) ≡ true
unfolding outcome_row is_row_open
outcome_row-due cfg now h is_meta t r smooth late =
    elim (Bool-cases (is_meta && has_message r.provider_message_id)) [
      | inl m ↦ rw (outcome_row-sent cfg now is_meta t r m) (closed_due h (sent_before now r) refl)
      | inr nm ↦ rw (nm, outcome_row) (go (verdict t) smooth)
    ]
  where
    go :
        (v : Verdict)
        → is_smooth v ≡ true
        → is_due_by h (by_verdict cfg now is_meta t.rand v r) ≡ true
    go deferred s = cc
    go (raised e) s = after_error-due cfg now t.rand h e r (not-true s) late
    go (accepted_as mid st) s = closed_due h (after_accept now is_meta mid st r) refl
