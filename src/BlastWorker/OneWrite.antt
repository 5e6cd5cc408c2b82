-- ===== src/BlastWorker/OneWrite.antt =====
-- What one run of `_process_blast_recipient` makes of a recipient: the write of the claim and the
-- write of the outcome, taken together.
use ai_wa_chat_agent_be.Prelude.{
  ℕ, ◌+◌, ◌*◌, ◌||◌, ◌≡◌, refl, Bool, true, false, ◌&&◌, Option, none, some, List, [], ◌∷◌, arith,
  inl, inr, leb, if◌then◌else◌, Bool-cases, Option-cases, ◌∙◌, sym,
}
use ai_wa_chat_agent_be.Prelude.Text.{Text}
use ai_wa_chat_agent_be.Delivery.{Status, status_eq}
use ai_wa_chat_agent_be.Engine.Store.{find_one, update_one}
use ai_wa_chat_agent_be.Engine.Errors.{
  SendError, is_retryable_category, account_blocked, compute_retry_delay_seconds,
}
use ai_wa_chat_agent_be.Engine.Send.{has_message}
use ai_wa_chat_agent_be.BlastWorker.Store.{
  BlastRecipientStatus, BlastRecipient, BlastStore, BlastConfig, row_has_id, set_row, recount_blast,
  pause_blast_for_account,
}
use ai_wa_chat_agent_be.BlastWorker.Send.{
  BlastAnswer, accepted, rejected, Sending, is_takeable, take_row, return_row, app_status, sent_row,
  retry_row, retry_at, fail_row, handle_blast_error, call_for, answer_blast, send_to_row,
  process_blast_recipient,
}
use ai_wa_chat_agent_be.BlastWorker.Rows.{IsUnique, update_one-twice, update_one-none}

-- What a sending comes to: no permit, an error, or an accepted message.
pub data Verdict : Type 0 where
  deferred : Verdict
  raised : SendError → Verdict
  accepted_as : Option Text → Option Status → Verdict

unfoldable pub verdict : Sending → Verdict
verdict t = elim t.refusal [
  | some e ↦ raised e
  | none ↦
      if t.permit
      then elim t.content_error [
        | some e ↦ raised e
        | none ↦ elim t.answer [ accepted mid st ↦ accepted_as mid st | rejected e ↦ raised e ]
      ]
      else deferred
]

-- An error leaves the recipient pending if the account is at fault, retrying while attempts are
-- left, and failed otherwise.
unfoldable pub after_error : BlastConfig → ℕ → ℕ → SendError → BlastRecipient → BlastRecipient
after_error cfg now rand e r =
    if account_blocked e
    then record r { status = BlastRecipientStatus.pending; updated_at = now }
    else if is_retryable_category e.category
        && leb (r.attempt_count + 1) cfg.retries.whatsapp_max_retries
    then record r {
      status = BlastRecipientStatus.retrying;
      attempt_count = r.attempt_count + 1;
      next_retry_at =
          some (now + 1000 * compute_retry_delay_seconds cfg.retries rand (r.attempt_count + 1));
      updated_at = now;
    }
    else record r {
      status = BlastRecipientStatus.by_provider Status.failed;
      attempt_count = r.attempt_count + 1;
      updated_at = now;
    }

-- Meta had accepted it in an earlier run.
abbrev pub sent_before : ℕ → BlastRecipient → BlastRecipient
sent_before now r = record r {
  status = BlastRecipientStatus.by_provider Status.sent;
  attempt_count = r.attempt_count + 1;
  updated_at = now;
}

-- A message that Twilio only holds for now is stored as sent, every other as Twilio says; the answer
-- itself is kept beside it. Meta's is stored as sent.
abbrev pub shown_status : Option Status → Status
shown_status st = elim st [
  | none ↦ Status.sent
  | some s ↦
      if status_eq s Status.queued || status_eq s Status.accepted || status_eq s Status.sending
      then Status.sent
      else s
]

abbrev pub after_accept : ℕ → Bool → Option Text → Option Status → BlastRecipient → BlastRecipient
after_accept now is_meta mid st r = record r {
  status = BlastRecipientStatus.by_provider (if is_meta then Status.sent else shown_status st);
  attempt_count = r.attempt_count + 1;
  provider_message_id = if is_meta then mid else r.provider_message_id;
  twilio_sid = if is_meta then none else mid;
  provider_status = if is_meta then r.provider_status else st;
  updated_at = now;
}

abbrev pub by_verdict : BlastConfig → ℕ → Bool → ℕ → Verdict → BlastRecipient → BlastRecipient
by_verdict cfg now is_meta rand deferred r = record r {
  status = BlastRecipientStatus.pending;
  updated_at = now;
}
by_verdict cfg now is_meta rand (raised e) r = after_error cfg now rand e r
by_verdict cfg now is_meta rand (accepted_as mid st) r = after_accept now is_meta mid st r

app_status-shown : (st : Option Status) → app_status st ≡ shown_status st
unfolding app_status status_eq
app_status-shown none = refl
app_status-shown (some Status.queued) = refl
app_status-shown (some Status.accepted) = refl
app_status-shown (some Status.sending) = refl
app_status-shown (some s) = refl

sent_row-after_accept :
    (now : ℕ) (is_meta : Bool) (mid : Option Text) (st : Option Status) (r : BlastRecipient)
    → sent_row is_meta now mid st (take_row now r) ≡ after_accept now is_meta mid st r
unfolding sent_row
sent_row-after_accept now true mid st r = refl
sent_row-after_accept now false mid st r = rw (app_status-shown st) refl

unfoldable pub outcome_row : BlastConfig → ℕ → Bool → Sending → BlastRecipient → BlastRecipient
outcome_row cfg now is_meta t r =
    if is_meta && has_message r.provider_message_id
    then sent_before now r
    else by_verdict cfg now is_meta t.rand (verdict t) r

-- The last write of a run, on a recipient that was taken with its attempts counted.
abbrev pub error_write : BlastConfig → ℕ → ℕ → ℕ → SendError → BlastRecipient → BlastRecipient
error_write cfg now rand attempts e =
    if account_blocked e
    then return_row now
    else if is_retryable_category e.category && leb attempts cfg.retries.whatsapp_max_retries
    then retry_row now (retry_at cfg now rand attempts)
    else fail_row now

abbrev pub last_write : BlastConfig → ℕ → Bool → ℕ → Verdict → ℕ → BlastRecipient → BlastRecipient
last_write cfg now is_meta attempts deferred rand = return_row now
last_write cfg now is_meta attempts (raised e) rand = error_write cfg now rand attempts e
last_write cfg now is_meta attempts (accepted_as mid st) rand = sent_row is_meta now mid st

pause_blast_for_account-rows :
    (now : ℕ) (s : BlastStore) → (pause_blast_for_account now s).rows ≡ s.rows
unfolding pause_blast_for_account recount_blast
pause_blast_for_account-rows now s = ground arith

handle_blast_error-rows :
    (cfg : BlastConfig) (now rand rid attempts : ℕ) (e : SendError) (s : BlastStore)
    → (handle_blast_error cfg now rand rid attempts e s).rows
      ≡ update_one (row_has_id rid) (error_write cfg now rand attempts e) s.rows
unfolding handle_blast_error set_row account_blocked
handle_blast_error-rows cfg now rand rid attempts e s = elim (Bool-cases (account_blocked e)) [
  | inl b ↦ rw (b, handle_blast_error) (pause_blast_for_account-rows now _)
  | inr nb ↦
      elim (Bool-cases
        (is_retryable_category e.category && leb attempts cfg.retries.whatsapp_max_retries)) [
          | inl y ↦ rw (nb, y, handle_blast_error) refl
          | inr n ↦ rw (nb, n, handle_blast_error) refl
        ]
]

pub send_to_row-rows :
    (cfg : BlastConfig) (now rid attempts : ℕ) (t : Sending) (s : BlastStore)
    → (send_to_row cfg now rid attempts t s).rows
      ≡ update_one
          (row_has_id rid)
          (last_write cfg now s.blast.is_meta attempts (verdict t) t.rand)
          s.rows
unfolding send_to_row answer_blast set_row verdict
send_to_row-rows cfg now rid attempts t s = go t.refusal t.content_error t.answer t.permit
  where
    go :
        (x y : Option SendError) (z : BlastAnswer) (p : Bool)
        → let u : Sending = record t { refusal = x; content_error = y; answer = z; permit = p } in
          (send_to_row cfg now rid attempts u s).rows
          ≡ update_one
              (row_has_id rid)
              (last_write cfg now s.blast.is_meta attempts (verdict u) t.rand)
              s.rows
    go (some e) y z p = handle_blast_error-rows cfg now t.rand rid attempts e s
    go none y z false = refl
    go none (some e) z true = handle_blast_error-rows cfg now t.rand rid attempts e s
    go none none (accepted mid st) true = refl
    go none none (rejected e) true =
        handle_blast_error-rows cfg now t.rand rid attempts e (call_for rid s)

last_write-outcome_row :
    (cfg : BlastConfig) (now : ℕ) (is_meta : Bool) (t : Sending) (r : BlastRecipient)
    → (is_meta && has_message r.provider_message_id) ≡ false
    → last_write cfg now is_meta (r.attempt_count + 1) (verdict t) t.rand (take_row now r)
      ≡ outcome_row cfg now is_meta t r
unfolding outcome_row after_error
last_write-outcome_row cfg now is_meta t r h = rw (h, outcome_row) (go (verdict t))
  where
    go :
        (v : Verdict)
        → last_write cfg now is_meta (r.attempt_count + 1) v t.rand (take_row now r)
          ≡ by_verdict cfg now is_meta t.rand v r
    go deferred = ground arith
    go (raised e) = ground arith
    go (accepted_as mid st) = sent_row-after_accept now is_meta mid st r

update_one-at :
    (p : BlastRecipient → Bool) (f g : BlastRecipient → BlastRecipient) (rs : List BlastRecipient)
    (r : BlastRecipient)
    → find_one p rs ≡ some r
    → f r ≡ g r
    → update_one p f rs ≡ update_one p g rs
unfolding find_one update_one
update_one-at p f g [] r e h = refl
update_one-at p f g (x ∷ xs) r e h = ground (arith, update_one-at p f g xs r)

pub outcome_row-sent :
    (cfg : BlastConfig) (now : ℕ) (is_meta : Bool) (t : Sending) (r : BlastRecipient)
    → (is_meta && has_message r.provider_message_id) ≡ true
    → outcome_row cfg now is_meta t r ≡ sent_before now r
unfolding outcome_row
outcome_row-sent cfg now is_meta t r h = rw (h, outcome_row) refl

-- Where no id stands twice, a run for a recipient changes that recipient only, and only if it is
-- pending or retrying, and its writes come to one: sent where Meta accepted it before; unchanged but
-- pending where no permit was given or the account is at fault; retrying after a retryable error with
-- attempts left; failed after another error; and otherwise as the provider answered.
pub process_blast_recipient-outcome_row :
    (cfg : BlastConfig) (now rid : ℕ) (t : Sending) (s : BlastStore)
    → IsUnique s.rows
    → (process_blast_recipient cfg now rid t s).rows
      ≡ update_one
          (λ r. row_has_id rid r && is_takeable r)
          (outcome_row cfg now s.blast.is_meta t)
          s.rows
unfolding process_blast_recipient set_row
process_blast_recipient-outcome_row cfg now rid t s u =
    elim (Option-cases (find_one (λ r. row_has_id rid r && is_takeable r) s.rows)) [
      | inl e ↦ rw (e, process_blast_recipient) (sym (update_one-none _ _ s.rows e))
      | inr (r, e) ↦
          let pq : BlastRecipient → Bool = λ r. row_has_id rid r && is_takeable r in
          elim (Bool-cases (s.blast.is_meta && has_message r.provider_message_id)) [
            | inl m ↦
                rw (e, m, process_blast_recipient)
                  (update_one-twice rid is_takeable _ (take_row now) (λ r. refl) s.rows r (u rid) e
                    ∙ update_one-at pq _ (outcome_row cfg now s.blast.is_meta t) s.rows r e
                        (sym (outcome_row-sent cfg now s.blast.is_meta t r m)))
            | inr nm ↦
                rw (e, nm, process_blast_recipient)
                  (send_to_row-rows cfg now rid (r.attempt_count + 1) t
                      (record s { rows = update_one pq (take_row now) s.rows })
                    ∙ update_one-twice rid is_takeable _ (take_row now) (λ r. refl) s.rows r (u rid)
                        e
                    ∙ update_one-at pq _ (outcome_row cfg now s.blast.is_meta t) s.rows r e
                        (last_write-outcome_row cfg now s.blast.is_meta t r nm))
          ]
    ]

pub outcome_row-id :
    (cfg : BlastConfig) (now : ℕ) (is_meta : Bool) (t : Sending) (r : BlastRecipient)
    → (outcome_row cfg now is_meta t r).id ≡ r.id
unfolding outcome_row after_error sent_row
outcome_row-id cfg now is_meta t r =
    elim (Bool-cases (is_meta && has_message r.provider_message_id)) [
      | inl m ↦ rw (m, outcome_row) refl
      | inr nm ↦ rw (nm, outcome_row) (go (verdict t))
    ]
  where
    go : (v : Verdict) → (by_verdict cfg now is_meta t.rand v r).id ≡ r.id
    go deferred = refl
    go (raised e) = ground arith
    go (accepted_as mid st) = ground arith
