-- ===== src/Engine/Sent.antt =====
-- A send job that takes its recipient: up to the provider's acceptance.
use ai_wa_chat_agent_be.Prelude.{
  ℕ, ◌+◌, ◌≡◌, refl, ◌∙◌, ap, if◌then◌else◌, Bool, true, false, ◌&&◌, Option, none, some, ◌∷◌,
  arith,
}
use ai_wa_chat_agent_be.Prelude.Text.{Text}
use ai_wa_chat_agent_be.Campaign.{RecipientStatus, is_terminal, recipient_eq}
use ai_wa_chat_agent_be.Engine.Store.{
  Recipient, Store, Config, find_one, has_id, has_status, set_recipient, claim_live, add_claim,
  is_paused, maybe_complete_campaign, refresh_campaign_counters,
}
use ai_wa_chat_agent_be.Engine.Send.{
  Attempt, accepted, is_claimable, has_message, start_attempt, call_provider, record_accepted,
  attempt_send, send_claimed, send_campaign_recipient,
}
use ai_wa_chat_agent_be.Engine.Calls.{send_claimed-fresh, record_accepted-Quiet}
use ai_wa_chat_agent_be.Engine.Lookup.{
  find_one-holds, find_one-and, find_one-update_one, update_one-and,
}

-- The recipient `r` stands under its id, may be taken, and is no Meta recipient with a message.
abbrev pub IsTakeable : ℕ → Recipient → Store → Type 0
IsTakeable rid r s =
    (find_one (has_id rid) s.recipients ≡ some r)
    × (is_claimable r ≡ true)
    × ((s.campaign.is_meta && has_message r.provider_message_id) ≡ false)
    × (is_paused s.campaign.status ≡ false)
    × (is_terminal s.campaign.status ≡ false)

pub send-taken :
    (cfg : Config) (now rid : ℕ) (a : Attempt) (r : Recipient) (s : Store)
    → IsTakeable rid r s
    → send_campaign_recipient cfg now rid a s ≡ send_claimed cfg now rid r a s
unfolding send_campaign_recipient
send-taken cfg now rid a r s (found, takeable, meta, paused, terminal) =
    rw (paused, terminal, find_one-and (has_id rid) is_claimable s.recipients r found takeable)

-- The store once the recipient is in work and its idempotency key is claimed.
abbrev pub taken : Config → ℕ → ℕ → Store → Store
taken cfg now rid s = add_claim cfg now rid (set_recipient rid start_attempt s)

pub send-fresh :
    (cfg : Config) (now rid : ℕ) (a : Attempt) (r : Recipient) (s : Store)
    → IsTakeable rid r s
    → claim_live now rid s.claims ≡ false
    → send_campaign_recipient cfg now rid a s
      ≡ attempt_send cfg now rid (r.attempt_count + 1) a (taken cfg now rid s)
send-fresh cfg now rid a r s h fresh =
    send-taken cfg now rid a r s h
    ∙ (let (_, _, meta, _, _) = h in send_claimed-fresh cfg now rid r a s meta fresh)

-- In the store of a taken recipient it is found `processing`, and stays so through the call.
pub taken-found :
    (cfg : Config) (now rid : ℕ) (r : Recipient) (s : Store)
    → find_one (has_id rid) s.recipients ≡ some r
    → find_one (has_id rid) (taken cfg now rid s).recipients ≡ some (start_attempt r)
unfolding set_recipient add_claim
taken-found cfg now rid r s found =
    find_one-update_one (has_id rid) start_attempt s.recipients r found
      (find_one-holds (has_id rid) s.recipients r found)

pub complete-recipients :
    (now : ℕ) (s : Store)
    → (maybe_complete_campaign now (refresh_campaign_counters s)).recipients ≡ s.recipients
unfolding maybe_complete_campaign refresh_campaign_counters
complete-recipients now s = ground arith

-- An attempt that nothing refuses is what the answer makes of it.
attempt_send-accepted :
    (cfg : Config) (now rid n : ℕ) (a : Attempt) (mid : Option Text) (s : Store)
    → (a.refusal ≡ none) × (a.permit ≡ true) × (a.content_error ≡ none)
    → a.response ≡ accepted mid
    → attempt_send cfg now rid n a s ≡ record_accepted now rid mid (call_provider rid s)
unfolding attempt_send
attempt_send-accepted cfg now rid n a mid s (ok, permit, content) answer =
    rw (ok, permit, content, answer, attempt_send)

-- `update_one` when the provider accepted, for the record that was found
abbrev mark_sent : Bool → Option Text → Recipient → Recipient
mark_sent meta mid r = record r {
  status = RecipientStatus.sent;
  provider_message_id = if meta then mid else r.provider_message_id;
}

record_accepted-messages :
    (now rid : ℕ) (mid : Option Text) (s : Store)
    → (record_accepted now rid mid s).messages ≡ rid ∷ s.messages
unfolding record_accepted maybe_complete_campaign refresh_campaign_counters
record_accepted-messages now rid mid s = ground arith

record_accepted-found :
    (now rid : ℕ) (mid : Option Text) (r : Recipient) (s : Store)
    → find_one (has_id rid) s.recipients ≡ some r
    → r.status ≡ RecipientStatus.processing
    → find_one (has_id rid) (record_accepted now rid mid s).recipients
      ≡ some (mark_sent s.campaign.is_meta mid r)
unfolding record_accepted recipient_eq
record_accepted-found now rid mid r s found work =
    let holds = find_one-holds (has_id rid) s.recipients r found in
    ap (find_one (has_id rid)) (
      complete-recipients now _
      ∙ update_one-and (has_id rid) (has_status RecipientStatus.processing)
          (mark_sent s.campaign.is_meta mid) s.recipients r found (rw work refl))
    ∙ find_one-update_one (has_id rid) (mark_sent s.campaign.is_meta mid) s.recipients r found holds

-- The provider accepts: what is left of the store once the message is recorded.
pub accepted-sent :
    (cfg : Config) (now rid n : ℕ) (a : Attempt) (mid : Option Text) (r : Recipient) (s : Store)
    → find_one (has_id rid) s.recipients ≡ some r
    → r.status ≡ RecipientStatus.processing
    → (a.refusal ≡ none) × (a.permit ≡ true) × (a.content_error ≡ none)
    → a.response ≡ accepted mid
    → let t = attempt_send cfg now rid n a s in
      (t.calls ≡ rid ∷ s.calls)
      × (t.messages ≡ rid ∷ s.messages)
      × ((u : Recipient) × (find_one (has_id rid) t.recipients ≡ some u)
          × (u.status ≡ RecipientStatus.sent)
          × (u.attempt_count ≡ r.attempt_count))
accepted-sent cfg now rid n a mid r s found work clear answer =
    let called = call_provider rid s in
    rw (attempt_send-accepted cfg now rid n a mid s clear answer) (
      (let (_, calls) = record_accepted-Quiet now rid mid called in calls),
      record_accepted-messages now rid mid called,
      (
        mark_sent s.campaign.is_meta mid r,
        record_accepted-found now rid mid r called found work,
        refl,
        refl,
      ),
    )

-- A run of the send job for a recipient that may be taken and has no live key, when nothing refuses
-- the message and the provider accepts it: the provider is called once, one message is stored, and the
-- recipient ends `sent` with one attempt more.
pub send-accepted :
    (cfg : Config) (now rid : ℕ) (a : Attempt) (mid : Option Text) (r : Recipient) (s : Store)
    → IsTakeable rid r s
    → claim_live now rid s.claims ≡ false
    → (a.refusal ≡ none) × (a.permit ≡ true) × (a.content_error ≡ none)
    → a.response ≡ accepted mid
    → let t = send_campaign_recipient cfg now rid a s in
      (t.calls ≡ rid ∷ s.calls)
      × (t.messages ≡ rid ∷ s.messages)
      × ((u : Recipient) × (find_one (has_id rid) t.recipients ≡ some u)
          × (u.status ≡ RecipientStatus.sent)
          × (u.attempt_count ≡ r.attempt_count + 1))
unfolding add_claim set_recipient
send-accepted cfg now rid a mid r s h fresh clear answer =
    rw (send-fresh cfg now rid a r s h fresh) (
      accepted-sent cfg now rid (r.attempt_count + 1) a mid (start_attempt r) (taken cfg now rid s)
        (let (found, _, _, _, _) = h in taken-found cfg now rid r s found) refl clear answer)
