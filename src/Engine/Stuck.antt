-- ===== src/Engine/Stuck.antt =====
-- What a retry of the send job meets: the idempotency key that the first attempt claimed
-- (app/services/idempotency.py, app/workers/campaign_tasks.py).
use ai_wa_chat_agent_be.Prelude.{
  ℕ, ◌+◌, ◌*◌, ◌<◌, ◌≡◌, refl, ◌∙◌, true, false, none, some, ◌∷◌, arith, max, leb,
}
use ai_wa_chat_agent_be.Campaign.{CampaignStatus, RecipientStatus, recipient_eq, is_open}
use ai_wa_chat_agent_be.Engine.Store.{
  Recipient, Store, Config, send_recipient, find_one, has_id, set_recipient, claim_live, add_claim,
  enqueue, open_n, maybe_complete_campaign, refresh_campaign_counters,
}
use ai_wa_chat_agent_be.Engine.Errors.{
  SendError, is_retryable_category, account_blocked, compute_retry_delay_seconds,
}
use ai_wa_chat_agent_be.Engine.Send.{
  Attempt, rejected, start_attempt, call_provider, retry_later, or_one, handle_error, attempt_send,
  send_campaign_recipient,
}
use ai_wa_chat_agent_be.Engine.Calls.{send_claimed-old}
use ai_wa_chat_agent_be.Engine.Lookup.{find_one-holds, find_one-update_one, open_n-found}
use ai_wa_chat_agent_be.Engine.Sent.{IsTakeable, taken, taken-found, send-fresh, send-taken}

-- The key that is claimed at `now` is held at a later time within its time to live.
pub claim_live-taken :
    (cfg : Config) (now later rid : ℕ) (s : Store)
    → later < now + max 60 cfg.idempotency_ttl
    → claim_live later rid (taken cfg now rid s).claims ≡ true
unfolding claim_live add_claim
claim_live-taken cfg now later rid s h = ground arith

-- A job that finds the key held takes the recipient and goes no further.
pub send-held :
    (cfg : Config) (now rid : ℕ) (a : Attempt) (r : Recipient) (s : Store)
    → IsTakeable rid r s
    → claim_live now rid s.claims ≡ true
    → send_campaign_recipient cfg now rid a s ≡ set_recipient rid start_attempt s
send-held cfg now rid a r s h held =
    send-taken cfg now rid a r s h
    ∙ (let (_, _, meta, _, _) = h in send_claimed-old cfg now rid r a s meta held)

-- An error that the job will retry, on the `attempts`-th attempt.
abbrev pub IsRetried : Config → ℕ → SendError → Type 0
IsRetried cfg attempts e =
    (account_blocked e ≡ false)
    × (is_retryable_category e.category ≡ true)
    × (leb (or_one attempts) (max cfg.whatsapp_max_retries cfg.campaign_max_retries) ≡ true)

-- The store after the retry was put off, before the counters are read.
put_off : Config → ℕ → ℕ → ℕ → ℕ → SendError → Store → Store
put_off cfg now rand rid attempts e s =
    let delay = compute_retry_delay_seconds cfg rand (or_one attempts) in
    enqueue (1000 * delay) (send_recipient rid) (set_recipient rid (retry_later now delay) s)

handle_error-retried :
    (cfg : Config) (now rand rid attempts : ℕ) (e : SendError) (s : Store)
    → IsRetried cfg attempts e
    → s.campaign.status ≡ CampaignStatus.running
    → handle_error cfg now rand rid attempts e s
      ≡ maybe_complete_campaign now
          (refresh_campaign_counters (put_off cfg now rand rid attempts e s))
unfolding handle_error put_off is_retryable_category account_blocked
handle_error-retried cfg now rand rid attempts e s (account, retryable, left) running =
    rw (account, running, retryable, left, handle_error) refl

attempt_send-rejected :
    (cfg : Config) (now rid n : ℕ) (a : Attempt) (e : SendError) (s : Store)
    → (a.refusal ≡ none) × (a.permit ≡ true) × (a.content_error ≡ none)
    → a.response ≡ rejected e
    → attempt_send cfg now rid n a s ≡ handle_error cfg now a.rand rid n e (call_provider rid s)
unfolding attempt_send
attempt_send-rejected cfg now rid n a e s (ok, permit, content) answer =
    rw (ok, permit, content, answer, attempt_send) refl

-- While a recipient is open, completion changes nothing but the counters.
complete-open :
    (now rid : ℕ) (r : Recipient) (s : Store)
    → find_one (has_id rid) s.recipients ≡ some r
    → is_open r.status ≡ true
    → maybe_complete_campaign now (refresh_campaign_counters s) ≡ refresh_campaign_counters s
unfolding maybe_complete_campaign refresh_campaign_counters
complete-open now rid r s found opened =
    ground (arith, open_n-found (has_id rid) s.recipients r found opened)

-- The store after a first attempt that is to be retried.
abbrev after_retry : Config → ℕ → ℕ → Attempt → SendError → ℕ → Store → Store
after_retry cfg now rid a e attempts s =
    refresh_campaign_counters
      (put_off cfg now a.rand rid attempts e (call_provider rid (taken cfg now rid s)))

after_retry-found :
    (cfg : Config) (now rid : ℕ) (a : Attempt) (e : SendError) (n : ℕ) (r : Recipient) (s : Store)
    → find_one (has_id rid) s.recipients ≡ some r
    → find_one (has_id rid) (after_retry cfg now rid a e n s).recipients
      ≡ some (retry_later now (compute_retry_delay_seconds cfg a.rand (or_one n)) (start_attempt r))
unfolding put_off refresh_campaign_counters enqueue set_recipient add_claim
after_retry-found cfg now rid a e n r s found =
    let work = taken-found cfg now rid r s found in
    let holds = find_one-holds (has_id rid) s.recipients r found in
    find_one-update_one (has_id rid)
      (retry_later now (compute_retry_delay_seconds cfg a.rand (or_one n)))
      (taken cfg now rid s).recipients (start_attempt r) work holds

send-retried :
    (cfg : Config) (now rid : ℕ) (a : Attempt) (e : SendError) (r : Recipient) (s : Store)
    → IsTakeable rid r s
    → s.campaign.status ≡ CampaignStatus.running
    → claim_live now rid s.claims ≡ false
    → (a.refusal ≡ none) × (a.permit ≡ true) × (a.content_error ≡ none)
    → a.response ≡ rejected e
    → IsRetried cfg (r.attempt_count + 1) e
    → send_campaign_recipient cfg now rid a s ≡ after_retry cfg now rid a e (r.attempt_count + 1) s
unfolding put_off enqueue set_recipient add_claim refresh_campaign_counters is_open
send-retried cfg now rid a e r s h running fresh clear answer retried =
    let held = taken cfg now rid s in
    let n = r.attempt_count + 1 in
    let off = put_off cfg now a.rand rid n e (call_provider rid held) in
    send-fresh cfg now rid a r s h fresh
    ∙ attempt_send-rejected cfg now rid n a e held clear answer
    ∙ handle_error-retried cfg now a.rand rid n e (call_provider rid held) retried running
    ∙ complete-open now rid
        (retry_later now (compute_retry_delay_seconds cfg a.rand (or_one n)) (start_attempt r)) off
        (let (found, _, _, _, _) = h in after_retry-found cfg now rid a e n r s found) refl

-- The key that the first attempt claimed is still held, and the recipient may be taken again.
after_retry-IsTakeable :
    (cfg : Config) (now rid : ℕ) (a : Attempt) (e : SendError) (n : ℕ) (r : Recipient) (s : Store)
    → IsTakeable rid r s
    → IsTakeable rid
        (retry_later now (compute_retry_delay_seconds cfg a.rand (or_one n)) (start_attempt r))
        (after_retry cfg now rid a e n s)
unfolding put_off enqueue set_recipient add_claim refresh_campaign_counters recipient_eq
after_retry-IsTakeable cfg now rid a e n r s (found, takeable, meta, paused, terminal) =
    (after_retry-found cfg now rid a e n r s found, refl, meta, paused, terminal)

claim_live-after_retry :
    (cfg : Config) (now later rid : ℕ) (a : Attempt) (e : SendError) (n : ℕ) (s : Store)
    → later < now + max 60 cfg.idempotency_ttl
    → claim_live later rid (after_retry cfg now rid a e n s).claims ≡ true
unfolding put_off enqueue set_recipient add_claim refresh_campaign_counters
claim_live-after_retry cfg now later rid a e n s = claim_live-taken cfg now later rid s

-- The store after the job of the retry, and the recipient in it.
abbrev after_both : Config → ℕ → ℕ → Attempt → SendError → ℕ → Store → Store
after_both cfg now rid a e n s = set_recipient rid start_attempt (after_retry cfg now rid a e n s)

after_both-stuck :
    (cfg : Config) (now rid : ℕ) (a : Attempt) (e : SendError) (n : ℕ) (r : Recipient) (s : Store)
    → find_one (has_id rid) s.recipients ≡ some r
    → let u = after_both cfg now rid a e n s in
      ((after_retry cfg now rid a e n s).calls ≡ rid ∷ s.calls)
      × (u.calls ≡ rid ∷ s.calls)
      × ((x : Recipient) × (find_one (has_id rid) u.recipients ≡ some x)
          × (x.status ≡ RecipientStatus.processing)
          × (x.attempt_count ≡ r.attempt_count + 1 + 1))
      × (0 < open_n u.recipients)
unfolding put_off enqueue set_recipient add_claim refresh_campaign_counters is_open
after_both-stuck cfg now rid a e n r s found =
    let x = retry_later now (compute_retry_delay_seconds cfg a.rand (or_one n)) (start_attempt r) in
    let u = after_both cfg now rid a e n s in
    let again =
      find_one-update_one (has_id rid) start_attempt (after_retry cfg now rid a e n s).recipients x
        (after_retry-found cfg now rid a e n r s found)
        (find_one-holds (has_id rid) s.recipients r found) in
    (
      refl,
      refl,
      (start_attempt x, again, refl, refl),
      open_n-found (has_id rid) u.recipients (start_attempt x) again refl,
    )

-- A campaign runs; a recipient that may be taken and has no live key is sent; the provider rejects the
-- message with an error that is to be retried, and the job is put in the queue again. When that job (or any other of this recipient) runs within the life of the key,
-- it makes no call of the provider, whatever it would have met, and leaves the recipient
-- `processing` with two attempts more, so that the campaign stays open.
pub retry_never_sends :
    (cfg : Config) (now later rid : ℕ) (a b : Attempt) (e : SendError) (r : Recipient) (s : Store)
    → IsTakeable rid r s
    → s.campaign.status ≡ CampaignStatus.running
    → claim_live now rid s.claims ≡ false
    → (a.refusal ≡ none) × (a.permit ≡ true) × (a.content_error ≡ none)
    → a.response ≡ rejected e
    → IsRetried cfg (r.attempt_count + 1) e
    → later < now + max 60 cfg.idempotency_ttl
    → let t = send_campaign_recipient cfg now rid a s in
      let u = send_campaign_recipient cfg later rid b t in
      (t.calls ≡ rid ∷ s.calls)
      × (u.calls ≡ rid ∷ s.calls)
      × ((x : Recipient) × (find_one (has_id rid) u.recipients ≡ some x)
          × (x.status ≡ RecipientStatus.processing)
          × (x.attempt_count ≡ r.attempt_count + 1 + 1))
      × (0 < open_n u.recipients)
retry_never_sends cfg now later rid a b e r s h running fresh clear answer retried soon =
    let n = r.attempt_count + 1 in
    rw (send-retried cfg now rid a e r s h running fresh clear answer retried) (
      rw
        (send-held cfg later rid b
          (retry_later now (compute_retry_delay_seconds cfg a.rand (or_one n)) (start_attempt r))
          (after_retry cfg now rid a e n s) (after_retry-IsTakeable cfg now rid a e n r s h)
          (claim_live-after_retry cfg now later rid a e n s soon))
        (let (found, _, _, _, _) = h in after_both-stuck cfg now rid a e n r s found))
