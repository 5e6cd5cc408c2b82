-- ===== src/BlastWorker/Done.antt =====
-- A recipient that is neither to be sent to nor failed, through one run of `_process_blast_recipient`.
use ai_wa_chat_agent_be.Prelude.{
  ℕ, ◌+◌, ◌≡◌, refl, ◌⊎◌, Bool, true, false, not, ◌&&◌, Option, none, some, List, [], ◌∷◌, arith,
  inl, inr, ◌==◌, Bool-cases, Option-cases, count, All,
}
use ai_wa_chat_agent_be.Engine.Store.{find_one, update_one, update_many}
use ai_wa_chat_agent_be.Engine.Errors.{SendError}
use ai_wa_chat_agent_be.Engine.Send.{has_message}
use ai_wa_chat_agent_be.Engine.Lookup.{find_one-holds}
use ai_wa_chat_agent_be.BlastWorker.Store.{
  BlastRecipient, BlastStore, BlastConfig, is_row_open, is_failed_row, is_pending, is_retrying,
  with_status, row_has_id, set_row, recount_blast, pause_blast_for_account,
}
use ai_wa_chat_agent_be.BlastWorker.Send.{
  BlastAnswer, accepted, rejected, Sending, is_takeable, take_row, sent_row, call_for,
  handle_blast_error, answer_blast, send_to_row, process_blast_recipient,
}
use ai_wa_chat_agent_be.BlastWorker.Rows.{KeepsId, All-update_one, All-update_many}
use ai_wa_chat_agent_be.BlastWorker.OneWrite.{
  Verdict, deferred, raised, accepted_as, verdict, last_write, send_to_row-rows,
}

abbrev pub is_done_row : BlastRecipient → Bool
is_done_row r = not (with_status is_row_open r) && not (with_status is_failed_row r)

-- Who has this id is neither to be sent to nor failed.
abbrev pub IsDone : ℕ → List BlastRecipient → Type 0
IsDone rid rs = All (λ r. row_has_id rid r ≡ true → is_done_row r ≡ true) rs

abbrev pub blast_calls_for : ℕ → BlastStore → ℕ
blast_calls_for rid s = count (λ i. i == rid) s.calls

All-found {ℓ κ} :
    {A : Type ℓ} (P : A → Type κ) (p : A → Bool) (xs : List A) (x : A)
    → All P xs
    → find_one p xs ≡ some x
    → P x
unfolding find_one
All-found P p [] x hs e = cc
All-found P p (y ∷ ys) x (h, hs) e = ground (arith, h, All-found P p ys x hs)

last_write-id :
    (cfg : BlastConfig) (now : ℕ) (is_meta : Bool) (attempts : ℕ) (v : Verdict) (rand : ℕ)
    (r : BlastRecipient)
    → (last_write cfg now is_meta attempts v rand r).id ≡ r.id
unfolding sent_row
last_write-id cfg now is_meta attempts deferred rand r = refl
last_write-id cfg now is_meta attempts (raised e) rand r = ground arith
last_write-id cfg now is_meta attempts (accepted_as mid st) rand r = ground arith

-- A write to somebody else, by the id, does not touch it.
update_other-IsDone :
    (rid i : ℕ) (f : BlastRecipient → BlastRecipient) (rs : List BlastRecipient)
    → KeepsId f
    → (i == rid) ≡ false
    → IsDone rid rs
    → IsDone rid (update_one (row_has_id i) f rs)
update_other-IsDone rid i f rs keeps other =
    All-update_one (row_has_id i) f (λ r y h z. ground (arith, keeps r)) rs

-- Nor does a write that only finds recipients which are not done.
update_open-IsDone :
    (rid : ℕ) (p : BlastRecipient → Bool) (f : BlastRecipient → BlastRecipient)
    (rs : List BlastRecipient)
    → KeepsId f
    → ((r : BlastRecipient) → p r ≡ true → is_done_row r ≡ false)
    → IsDone rid rs
    → IsDone rid (update_one p f rs)
update_open-IsDone rid p f rs keeps undone =
    All-update_one p f (λ r y h z. ground (arith, keeps r, undone r y, h)) rs

pub update_many-IsDone :
    (rid : ℕ) (p : BlastRecipient → Bool) (f : BlastRecipient → BlastRecipient)
    (rs : List BlastRecipient)
    → KeepsId f
    → ((r : BlastRecipient) → p r ≡ true → is_done_row r ≡ false)
    → IsDone rid rs
    → IsDone rid (update_many p f rs)
update_many-IsDone rid p f rs keeps undone =
    All-update_many p f (λ r y h z. ground (arith, keeps r, undone r y, h)) rs

takeable_undone : (r : BlastRecipient) → is_takeable r ≡ true → is_done_row r ≡ false
unfolding is_row_open is_failed_row is_pending is_retrying
takeable_undone r h = ground arith

found_undone :
    (i : ℕ) (r : BlastRecipient) → (row_has_id i r && is_takeable r) ≡ true → is_done_row r ≡ false
found_undone i r h = ground (arith, takeable_undone r)

-- Done at `s`, and as often called for as `n` says.
abbrev pub IsLeft : ℕ → ℕ → BlastStore → Type 0
IsLeft rid n s = IsDone rid s.rows × (blast_calls_for rid s ≡ n)

handle_blast_error-calls :
    (cfg : BlastConfig) (now rand rid attempts : ℕ) (e : SendError) (s : BlastStore)
    → (handle_blast_error cfg now rand rid attempts e s).calls ≡ s.calls
unfolding handle_blast_error set_row pause_blast_for_account recount_blast
handle_blast_error-calls cfg now rand rid attempts e s = ground arith

send_to_row-calls :
    (cfg : BlastConfig) (now rid attempts : ℕ) (t : Sending) (s : BlastStore)
    → let u = send_to_row cfg now rid attempts t s in
      (u.calls ≡ s.calls) ⊎ (u.calls ≡ rid ∷ s.calls)
unfolding send_to_row answer_blast set_row
send_to_row-calls cfg now rid attempts t s = go t.refusal t.content_error t.answer t.permit
  where
    go :
        (x y : Option SendError) (z : BlastAnswer) (p : Bool)
        → let u =
            send_to_row cfg now rid attempts
              (record t { refusal = x; content_error = y; answer = z; permit = p })
              s in
          (u.calls ≡ s.calls) ⊎ (u.calls ≡ rid ∷ s.calls)
    go (some e) y z p = inl (handle_blast_error-calls cfg now t.rand rid attempts e s)
    go none y z false = inl refl
    go none (some e) z true = inl (handle_blast_error-calls cfg now t.rand rid attempts e s)
    go none none (accepted mid st) true = inr refl
    go none none (rejected e) true =
        inr (handle_blast_error-calls cfg now t.rand rid attempts e (call_for rid s))

pub process-IsLeft :
    (cfg : BlastConfig) (now i rid n : ℕ) (t : Sending) (s : BlastStore)
    → IsLeft rid n s
    → IsLeft rid n (process_blast_recipient cfg now i t s)
unfolding process_blast_recipient set_row
process-IsLeft cfg now i rid n t s (done, calls) =
    let p : BlastRecipient → Bool = λ r. row_has_id i r && is_takeable r in
    elim (Option-cases (find_one p s.rows)) [
      | inl e ↦ rw (e, process_blast_recipient) (done, calls)
      | inr (r, e) ↦
          let yes_found = find_one-holds p s.rows r e in
          let other : (i == rid) ≡ false = ground (
            arith,
            All-found (λ x. row_has_id rid x ≡ true → is_done_row x ≡ true) p s.rows r done e,
            found_undone i r yes_found,
          ) in
          let taken : BlastStore = record s { rows = update_one p (take_row now) s.rows } in
          let held : IsDone rid taken.rows =
            update_open-IsDone rid p (take_row now) s.rows (λ r. refl) (found_undone i) done in
          elim (Bool-cases (s.blast.is_meta && has_message r.provider_message_id)) [
            | inl m ↦
                rw (e, m, process_blast_recipient)
                  (update_other-IsDone rid i _ taken.rows (λ r. refl) other held, calls)
            | inr nm ↦
                rw (e, nm, process_blast_recipient)
                  (
                    rw (send_to_row-rows cfg now i (r.attempt_count + 1) t taken) (
                        update_other-IsDone rid i _ taken.rows
                          (last_write-id cfg now s.blast.is_meta (r.attempt_count + 1) (verdict t)
                            t.rand)
                          other held),
                    elim (send_to_row-calls cfg now i (r.attempt_count + 1) t taken) [
                      | inl same ↦ rw same calls
                      | inr one ↦ rw (one, other) (omega (arith, calls))
                    ],
                  )
          ]
    ]
