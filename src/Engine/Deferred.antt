-- ===== src/Engine/Deferred.antt =====
-- What a deferred send meets: app/services/throughput.py gave no permit, and the job is put in the
-- queue again after three seconds, with the idempotency key claimed.
use ai_wa_chat_agent_be.Prelude.{ℕ, ◌+◌, ◌<◌, ◌≡◌, refl, ◌∙◌, true, false, none, some, max}
use ai_wa_chat_agent_be.Campaign.{RecipientStatus, recipient_eq, is_open}
use ai_wa_chat_agent_be.Engine.Store.{
  Recipient, Store, Config, send_recipient, find_one, has_id, set_recipient, claim_live, add_claim,
  enqueue, open_n,
}
use ai_wa_chat_agent_be.Engine.Send.{
  Attempt, start_attempt, give_back, attempt_send, send_campaign_recipient,
}
use ai_wa_chat_agent_be.Engine.Lookup.{find_one-holds, find_one-update_one, open_n-found}
use ai_wa_chat_agent_be.Engine.Sent.{IsTakeable, taken, taken-found, send-fresh}
use ai_wa_chat_agent_be.Engine.Stuck.{claim_live-taken, send-held}

-- The store after a send that got no permit.
abbrev deferred : Config → ℕ → ℕ → Store → Store
deferred cfg now rid s =
    enqueue 3000 (send_recipient rid) (set_recipient rid give_back (taken cfg now rid s))

attempt_send-deferred :
    (cfg : Config) (now rid n : ℕ) (a : Attempt) (s : Store)
    → (a.refusal ≡ none) × (a.permit ≡ false)
    → attempt_send cfg now rid n a s
      ≡ enqueue 3000 (send_recipient rid) (set_recipient rid give_back s)
unfolding attempt_send
attempt_send-deferred cfg now rid n a s (ok, full) = rw (ok, full, attempt_send) refl

deferred-found :
    (cfg : Config) (now rid : ℕ) (r : Recipient) (s : Store)
    → find_one (has_id rid) s.recipients ≡ some r
    → find_one (has_id rid) (deferred cfg now rid s).recipients ≡ some (give_back (start_attempt r))
unfolding enqueue set_recipient add_claim
deferred-found cfg now rid r s found =
    find_one-update_one (has_id rid) give_back (taken cfg now rid s).recipients (start_attempt r)
      (taken-found cfg now rid r s found) (find_one-holds (has_id rid) s.recipients r found)

deferred-IsTakeable :
    (cfg : Config) (now rid : ℕ) (r : Recipient) (s : Store)
    → IsTakeable rid r s
    → IsTakeable rid (give_back (start_attempt r)) (deferred cfg now rid s)
unfolding enqueue set_recipient add_claim recipient_eq
deferred-IsTakeable cfg now rid r s (found, takeable, meta, paused, terminal) =
    (deferred-found cfg now rid r s found, refl, meta, paused, terminal)

claim_live-deferred :
    (cfg : Config) (now later rid : ℕ) (s : Store)
    → later < now + max 60 cfg.idempotency_ttl
    → claim_live later rid (deferred cfg now rid s).claims ≡ true
unfolding enqueue set_recipient add_claim
claim_live-deferred cfg now later rid s = claim_live-taken cfg now later rid s

deferred-stuck :
    (cfg : Config) (now rid : ℕ) (r : Recipient) (s : Store)
    → find_one (has_id rid) s.recipients ≡ some r
    → let u = set_recipient rid start_attempt (deferred cfg now rid s) in
      (u.calls ≡ s.calls)
      × ((x : Recipient) × (find_one (has_id rid) u.recipients ≡ some x)
          × (x.status ≡ RecipientStatus.processing))
      × (0 < open_n u.recipients)
unfolding enqueue set_recipient add_claim is_open
deferred-stuck cfg now rid r s found =
    let u = set_recipient rid start_attempt (deferred cfg now rid s) in
    let x = start_attempt (give_back (start_attempt r)) in
    let again =
      find_one-update_one (has_id rid) start_attempt (deferred cfg now rid s).recipients
        (give_back (start_attempt r)) (deferred-found cfg now rid r s found)
        (find_one-holds (has_id rid) s.recipients r found) in
    (refl, (x, again, refl), open_n-found (has_id rid) u.recipients x again refl)

-- A recipient that may be taken and has no live key is sent, is eligible, and gets no permit, so that
-- its job is put in the queue again after three seconds. When that job (or any other of this
-- recipient) runs within the life of the key, the provider has still not been called, whatever that
-- job would have met, and the recipient is left `processing`, so that the campaign stays open.
pub deferral_never_sends :
    (cfg : Config) (now later rid : ℕ) (a b : Attempt) (r : Recipient) (s : Store)
    → IsTakeable rid r s
    → claim_live now rid s.claims ≡ false
    → (a.refusal ≡ none) × (a.permit ≡ false)
    → later < now + max 60 cfg.idempotency_ttl
    → let u = send_campaign_recipient cfg later rid b (send_campaign_recipient cfg now rid a s) in
      (u.calls ≡ s.calls)
      × ((x : Recipient) × (find_one (has_id rid) u.recipients ≡ some x)
          × (x.status ≡ RecipientStatus.processing))
      × (0 < open_n u.recipients)
deferral_never_sends cfg now later rid a b r s h fresh full soon =
    rw
      (send-fresh cfg now rid a r s h fresh
        ∙ attempt_send-deferred cfg now rid (r.attempt_count + 1) a (taken cfg now rid s) full)
      (rw
        (send-held cfg later rid b (give_back (start_attempt r)) (deferred cfg now rid s)
          (deferred-IsTakeable cfg now rid r s h) (claim_live-deferred cfg now later rid s soon))
        (let (found, _, _, _, _) = h in deferred-stuck cfg now rid r s found))
