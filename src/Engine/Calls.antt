-- ===== src/Engine/Calls.antt =====
-- What each event does to the claims and to the calls of the provider.
use ai_wa_chat_agent_be.Prelude.{
  ℕ, suc, ◌+◌, ◌*◌, ◌≡◌, refl, ◌⊎◌, inl, inr, Bool, true, false, ◌&&◌, Option, none, some, List, [],
  ◌∷◌, arith, or_else,
}
use ai_wa_chat_agent_be.Prelude.Text.{Text}
use ai_wa_chat_agent_be.Delivery.{Status}
use ai_wa_chat_agent_be.Engine.Store.{
  Recipient, Store, Config, send_recipient, set_recipient, enqueue, claim_live, add_claim,
  claim_idempotency, refresh_campaign_counters, maybe_complete_campaign,
}
use ai_wa_chat_agent_be.Engine.Errors.{SendError}
use ai_wa_chat_agent_be.Engine.Jobs.{
  start_campaign_job, set_running, process_campaign_batch, enqueue_batch, enqueue_sends,
  pause_campaign_for_account,
}
use ai_wa_chat_agent_be.Engine.Send.{
  Attempt, Response, accepted, rejected, start_attempt, has_message, record_accepted, handle_error,
  attempt_send, call_provider, send_claimed,
}
use ai_wa_chat_agent_be.Engine.Routes.{
  pause_campaign, resume_campaign, cancel_campaign, retry_failed, update_campaign_recipient,
}

-- Neither a claim nor a call of the provider is made.
abbrev pub Quiet : Store → Store → Type 0
Quiet s t = (t.claims ≡ s.claims) × (t.calls ≡ s.calls)

pub finish-Quiet :
    (now : ℕ) (s : Store) → Quiet s (maybe_complete_campaign now (refresh_campaign_counters s))
unfolding maybe_complete_campaign refresh_campaign_counters
finish-Quiet now s = ground arith

pub handle_error-Quiet :
    (cfg : Config) (now rand rid attempts : ℕ) (e : SendError) (s : Store)
    → Quiet s (handle_error cfg now rand rid attempts e s)
unfolding handle_error set_recipient enqueue pause_campaign_for_account maybe_complete_campaign
    refresh_campaign_counters
handle_error-Quiet cfg now rand rid attempts e s = ground arith

pub record_accepted-Quiet :
    (now rid : ℕ) (mid : Option Text) (s : Store) → Quiet s (record_accepted now rid mid s)
unfolding record_accepted maybe_complete_campaign refresh_campaign_counters
record_accepted-Quiet now rid mid s = ground arith

-- After the claim an attempt calls the provider once, or not at all.
pub attempt_send-calls :
    (cfg : Config) (now rid attempts : ℕ) (t : Attempt) (s : Store)
    → ((attempt_send cfg now rid attempts t s).claims ≡ s.claims)
      × (((attempt_send cfg now rid attempts t s).calls ≡ s.calls)
          ⊎ ((attempt_send cfg now rid attempts t s).calls ≡ rid ∷ s.calls))
unfolding attempt_send set_recipient enqueue
attempt_send-calls cfg now rid attempts t s = go t.refusal t.content_error t.response t.permit
  where
    go :
        (x y : Option SendError) (z : Response) (p : Bool)
        → let u =
            attempt_send cfg now rid attempts
              (record t { refusal = x; content_error = y; response = z; permit = p })
              s in
          (u.claims ≡ s.claims) × ((u.calls ≡ s.calls) ⊎ (u.calls ≡ rid ∷ s.calls))
    go (some e) y z p =
        let (a, b) = handle_error-Quiet cfg now t.rand rid attempts e s in (a, inl b)
    go none y z false = (refl, inl refl)
    go none (some e) z true =
        let (a, b) = handle_error-Quiet cfg now t.rand rid attempts e s in (a, inl b)
    go none none (accepted mid) true =
        let (a, b) = record_accepted-Quiet now rid mid (call_provider rid s) in (a, inr b)
    go none none (rejected e) true =
        let (a, b) = handle_error-Quiet cfg now t.rand rid attempts e (call_provider rid s) in
        (a, inr b)

-- What becomes of a recipient that was taken, when its claim is not live, and when it is.
pub send_claimed-fresh :
    (cfg : Config) (now rid : ℕ) (r : Recipient) (a : Attempt) (s : Store)
    → (s.campaign.is_meta && has_message r.provider_message_id) ≡ false
    → claim_live now rid s.claims ≡ false
    → send_claimed cfg now rid r a s
      ≡ attempt_send cfg now rid
          (r.attempt_count + 1)
          a
          (add_claim cfg now rid (set_recipient rid start_attempt s))
unfolding send_claimed claim_idempotency set_recipient
send_claimed-fresh cfg now rid r a s m l = rw (m, send_claimed) (rw (l, claim_idempotency))

pub send_claimed-old :
    (cfg : Config) (now rid : ℕ) (r : Recipient) (a : Attempt) (s : Store)
    → (s.campaign.is_meta && has_message r.provider_message_id) ≡ false
    → claim_live now rid s.claims ≡ true
    → send_claimed cfg now rid r a s ≡ set_recipient rid start_attempt s
unfolding send_claimed claim_idempotency set_recipient
send_claimed-old cfg now rid r a s m l = rw (m, send_claimed) (rw (l, claim_idempotency))

pub send_claimed-meta :
    (cfg : Config) (now rid : ℕ) (r : Recipient) (a : Attempt) (s : Store)
    → (s.campaign.is_meta && has_message r.provider_message_id) ≡ true
    → Quiet s (send_claimed cfg now rid r a s)
unfolding send_claimed set_recipient maybe_complete_campaign refresh_campaign_counters
send_claimed-meta cfg now rid r a s m = rw (m, send_claimed) (ground arith)

pub enqueue_sends-Quiet :
    (delay i : ℕ) (rids : List ℕ) (s : Store) → Quiet s (enqueue_sends delay i rids s)
unfolding enqueue_sends enqueue
enqueue_sends-Quiet delay i [] s = (refl, refl)
enqueue_sends-Quiet delay i (rid ∷ rids) s =
    enqueue_sends-Quiet delay (suc i) rids (enqueue (delay * i) (send_recipient rid) s)

pub enqueue_batch-Quiet :
    (cfg : Config) (rids : List ℕ) (s : Store) → Quiet s (enqueue_batch cfg rids s)
unfolding enqueue_batch enqueue
enqueue_batch-Quiet cfg rids s = ground (arith, enqueue_sends-Quiet cfg.send_delay_ms 0 rids s)

pub batch-Quiet : (cfg : Config) (now : ℕ) (s : Store) → Quiet s (process_campaign_batch cfg now s)
unfolding process_campaign_batch maybe_complete_campaign refresh_campaign_counters
batch-Quiet cfg now s = grind (arith, enqueue_batch-Quiet)

pub start-Quiet : (cfg : Config) (now : ℕ) (s : Store) → Quiet s (start_campaign_job cfg now s)
unfolding start_campaign_job set_running refresh_campaign_counters
start-Quiet cfg now s =
    ground (arith, batch-Quiet cfg now (refresh_campaign_counters (set_running now s)))

pub callback-Quiet :
    (now rid : ℕ) (st : Option Status) (s : Store)
    → Quiet s (update_campaign_recipient now rid st s)
unfolding update_campaign_recipient refresh_campaign_counters set_recipient
callback-Quiet now rid none s = (refl, refl)
callback-Quiet now rid (some st) s = ground arith

pub pause-Quiet : (now : ℕ) (s : Store) → Quiet s (or_else (pause_campaign now s) s)
unfolding pause_campaign
pause-Quiet now s = ground arith

pub resume-Quiet : (s : Store) → Quiet s (or_else (resume_campaign s) s)
unfolding resume_campaign enqueue
resume-Quiet s = ground arith

pub cancel-Quiet : (now : ℕ) (s : Store) → Quiet s (or_else (cancel_campaign now s) s)
unfolding cancel_campaign refresh_campaign_counters
cancel-Quiet now s = ground arith

pub retry-Quiet : (s : Store) → Quiet s (or_else (retry_failed s) s)
unfolding retry_failed enqueue
retry-Quiet s = ground arith

pub complete-Quiet : (now : ℕ) (s : Store) → Quiet s (maybe_complete_campaign now s)
unfolding maybe_complete_campaign refresh_campaign_counters
complete-Quiet now s = ground arith
