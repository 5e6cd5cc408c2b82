-- ===== src/Engine/Closing.antt =====
-- The open recipients of a campaign that is over, through a run of the send job.
use ai_wa_chat_agent_be.Prelude.{
  ℕ, ◌+◌, ◌≤◌, ◌≡◌, refl, Bool, true, false, ◌&&◌, Option, none, some, List, [], ◌∷◌, arith, inl,
  inr, leb, max, Bool-cases, Option-cases,
}
use ai_wa_chat_agent_be.Prelude.Text.{Text}
use ai_wa_chat_agent_be.Campaign.{RecipientStatus, is_open, is_terminal, recipient_eq}
use ai_wa_chat_agent_be.Engine.Store.{
  Recipient, send_recipient, Store, Config, find_one, update_one, update_many, has_id, is_paused,
  open_n, set_status, set_recipient, is_running, enqueue, claim_idempotency, add_claim,
  refresh_campaign_counters, maybe_complete_campaign,
}
use ai_wa_chat_agent_be.Engine.Errors.{SendError, account_blocked, is_retryable_category}
use ai_wa_chat_agent_be.Engine.Jobs.{pause_campaign_for_account}
use ai_wa_chat_agent_be.Engine.Send.{
  Attempt, Response, accepted, rejected, start_attempt, give_back, call_provider, has_message,
  is_claimable, is_cancellable, is_cancelled, or_one, record_accepted, handle_error, attempt_send,
  send_claimed, send_campaign_recipient,
}

abbrev pub IsSettled : Store → Type 0
IsSettled s = is_terminal s.campaign.status ≡ true → open_n s.recipients ≡ 0

-- Writing a closed status opens nothing.
pub open_n-update_one :
    (p : Recipient → Bool) (f : Recipient → Recipient) (rs : List Recipient)
    → ((r : Recipient) → is_open (f r).status ≡ false)
    → open_n (update_one p f rs) ≤ open_n rs
unfolding update_one
open_n-update_one p f [] h = omega arith
open_n-update_one p f (r ∷ rs) h = ground (arith, h r, open_n-update_one p f rs h)

pub open_n-update_cancellable :
    (rs : List Recipient)
    → open_n (update_many is_cancellable (set_status RecipientStatus.cancelled) rs) ≡ 0
unfolding update_many is_open recipient_eq
open_n-update_cancellable [] = refl
open_n-update_cancellable (r ∷ rs) = ground (arith, open_n-update_cancellable rs)

-- Where the campaign is not over, the completion check is the only way to the end.
pub maybe_complete-IsSettled :
    (now : ℕ) (s : Store) → IsSettled s → IsSettled (maybe_complete_campaign now s)
unfolding maybe_complete_campaign refresh_campaign_counters
maybe_complete-IsSettled now s h = ground arith

pub refresh-IsSettled : (s : Store) → IsSettled s → IsSettled (refresh_campaign_counters s)
unfolding refresh_campaign_counters
refresh-IsSettled s h = h

abbrev pub IsActive : Store → Type 0
IsActive s = is_terminal s.campaign.status ≡ false

pub active-IsSettled : (s : Store) → IsActive s → IsSettled s
active-IsSettled s a h = cc

pub finish-IsSettled :
    (now : ℕ) (s : Store)
    → IsActive s
    → IsSettled (maybe_complete_campaign now (refresh_campaign_counters s))
unfolding refresh_campaign_counters
finish-IsSettled now s a =
    maybe_complete-IsSettled now (refresh_campaign_counters s)
      (refresh-IsSettled s (active-IsSettled s a))

record_accepted-IsSettled :
    (now rid : ℕ) (mid : Option Text) (s : Store)
    → IsActive s
    → IsSettled (record_accepted now rid mid s)
unfolding record_accepted
record_accepted-IsSettled now rid mid s a = finish-IsSettled now _ a

pub pause_for_account-IsSettled :
    (now : ℕ) (s : Store) → IsActive s → IsSettled (pause_campaign_for_account now s)
unfolding pause_campaign_for_account is_terminal
pause_for_account-IsSettled now s a = ground arith

handle_error-IsSettled :
    (cfg : Config) (now rand rid attempts : ℕ) (e : SendError) (s : Store)
    → IsActive s
    → IsSettled (handle_error cfg now rand rid attempts e s)
unfolding handle_error set_recipient enqueue
handle_error-IsSettled cfg now rand rid attempts e s a =
    elim (Bool-cases (account_blocked e && is_running s.campaign.status)) [
      | inl b ↦ rw (b, handle_error) (pause_for_account-IsSettled now _ a)
      | inr nb ↦ elim (Bool-cases (is_cancelled s.campaign.status)) [
        | inl c ↦ rw (nb, c, handle_error) (finish-IsSettled now _ a)
        | inr nc ↦
            elim (Bool-cases (
              is_retryable_category e.category
              && leb (or_one attempts) (max cfg.whatsapp_max_retries cfg.campaign_max_retries)
              && is_running s.campaign.status)) [
                | inl t ↦ rw (nb, nc, t, handle_error) (finish-IsSettled now _ a)
                | inr nt ↦ rw (nb, nc, nt, handle_error) (finish-IsSettled now _ a)
              ]
      ]
    ]

attempt_send-IsSettled :
    (cfg : Config) (now rid attempts : ℕ) (t : Attempt) (s : Store)
    → IsActive s
    → IsSettled (attempt_send cfg now rid attempts t s)
unfolding attempt_send set_recipient enqueue
attempt_send-IsSettled cfg now rid attempts t s a = go t.refusal t.content_error t.response t.permit
  where
    go :
        (x y : Option SendError) (z : Response) (p : Bool)
        → IsSettled (
            attempt_send cfg now rid attempts
              (record t { refusal = x; content_error = y; response = z; permit = p })
              s)
    go (some e) y z p = handle_error-IsSettled cfg now t.rand rid attempts e s a
    go none y z false =
        active-IsSettled (enqueue 3000 (send_recipient rid) (set_recipient rid give_back s)) a
    go none (some e) z true = handle_error-IsSettled cfg now t.rand rid attempts e s a
    go none none (accepted mid) true = record_accepted-IsSettled now rid mid (call_provider rid s) a
    go none none (rejected e) true =
        handle_error-IsSettled cfg now t.rand rid attempts e (call_provider rid s) a

claim-campaign :
    (cfg : Config) (now rid : ℕ) (s : Store)
    → (claim_idempotency cfg now rid s).0.campaign ≡ s.campaign
unfolding claim_idempotency add_claim
claim-campaign cfg now rid s = ground arith

send_claimed-IsSettled :
    (cfg : Config) (now rid : ℕ) (r : Recipient) (t : Attempt) (s : Store)
    → IsActive s
    → IsSettled (send_claimed cfg now rid r t s)
unfolding send_claimed set_recipient
send_claimed-IsSettled cfg now rid r t s a =
    elim (Bool-cases (s.campaign.is_meta && has_message r.provider_message_id)) [
      | inl m ↦ rw (m, send_claimed) (finish-IsSettled now _ a)
      | inr nm ↦
          let claimed = set_recipient rid start_attempt s in
          let held = (claim_idempotency cfg now rid claimed).0 in
          let b : IsActive held = rw (claim-campaign cfg now rid claimed) a in
          elim (Bool-cases (claim_idempotency cfg now rid claimed).1) [
            | inl fresh ↦
                rw (nm, fresh, send_claimed)
                  (attempt_send-IsSettled cfg now rid (r.attempt_count + 1) t held b)
            | inr old ↦ rw (nm, old, send_claimed) (active-IsSettled held b)
          ]
    ]

pub cancelled_closed :
    (rid : ℕ) (rs : List Recipient)
    → open_n rs ≡ 0
    → open_n (
        update_one
          (λ r. has_id rid r && is_cancellable r)
          (set_status RecipientStatus.cancelled)
          rs)
      ≡ 0
unfolding is_open
cancelled_closed rid rs h = omega (
  arith,
  open_n-update_one (λ r. has_id rid r && is_cancellable r) (set_status RecipientStatus.cancelled)
      rs (λ r. refl),
)

pub send-IsSettled :
    (cfg : Config) (now rid : ℕ) (t : Attempt) (s : Store)
    → IsSettled s
    → IsSettled (send_campaign_recipient cfg now rid t s)
unfolding send_campaign_recipient refresh_campaign_counters
send-IsSettled cfg now rid t s h = elim (Bool-cases (is_paused s.campaign.status)) [
  | inl p ↦ rw (p, send_campaign_recipient) h
  | inr np ↦ elim (Bool-cases (is_terminal s.campaign.status)) [
    | inl d ↦ rw (np, d, send_campaign_recipient) (λ _. cancelled_closed rid s.recipients (h d))
    | inr a ↦ elim (Option-cases (find_one (λ r. has_id rid r && is_claimable r) s.recipients)) [
      | inl e ↦ rw (np, a, e, send_campaign_recipient) h
      | inr (r, e) ↦
          rw (np, a, e, send_campaign_recipient) (send_claimed-IsSettled cfg now rid r t s a)
    ]
  ]
]
