-- ===== src/Engine/Cancelled.antt =====
-- What follows the cancel button: app/routes/campaigns.py, `cancel_campaign`, and everything after.
use ai_wa_chat_agent_be.Prelude.{
  ℕ, ◌≡◌, Option, none, some, List, [], ◌∷◌, arith, inl, inr, Bool-cases, Option-cases,
}
use ai_wa_chat_agent_be.Delivery.{Status}
use ai_wa_chat_agent_be.Campaign.{CampaignStatus, recipient_should_apply, is_terminal}
use ai_wa_chat_agent_be.Engine.Store.{
  Store, Config, find_one, has_id, open_n, set_recipient, refresh_campaign_counters,
  maybe_complete_campaign,
}
use ai_wa_chat_agent_be.Engine.Jobs.{start_campaign_job, process_campaign_batch}
use ai_wa_chat_agent_be.Engine.Send.{Attempt, send_campaign_recipient}
use ai_wa_chat_agent_be.Engine.Routes.{
  pause_campaign, resume_campaign, cancel_campaign, retry_failed, mapped, update_campaign_recipient,
}
use ai_wa_chat_agent_be.Engine.Run.{
  Event, start, batch, finalize, pause, resume, cancel, retry, send, callback, step, run,
}
use ai_wa_chat_agent_be.Engine.Closing.{cancelled_closed, open_n-update_cancellable}
use ai_wa_chat_agent_be.Engine.Completion.{callback-closed}

-- Cancelled, with nobody left to send to; `s` is an earlier store with the same provider calls.
abbrev pub IsCancelledSince : Store → Store → Type 0
IsCancelledSince s t =
    (t.campaign.status ≡ CampaignStatus.cancelled) × (open_n t.recipients ≡ 0) × (t.calls ≡ s.calls)

send-cancelled :
    (cfg : Config) (now rid : ℕ) (a : Attempt) (s t : Store)
    → IsCancelledSince s t
    → IsCancelledSince s (send_campaign_recipient cfg now rid a t)
unfolding send_campaign_recipient refresh_campaign_counters is_terminal
send-cancelled cfg now rid a s t (off, closed, calls) =
    ground (arith, cancelled_closed rid t.recipients closed)

callback-cancelled :
    (now rid : ℕ) (st : Option Status) (s t : Store)
    → IsCancelledSince s t
    → IsCancelledSince s (update_campaign_recipient now rid st t)
unfolding update_campaign_recipient refresh_campaign_counters set_recipient
callback-cancelled now rid none s t h = h
callback-cancelled now rid (some st) s t (off, closed, calls) =
    elim (Option-cases (find_one (has_id rid) t.recipients)) [
      | inl e ↦ rw (e, update_campaign_recipient) (off, closed, calls)
      | inr (r, e) ↦ elim (Bool-cases (recipient_should_apply (some r.status) (mapped st))) [
        | inl y ↦
            rw (e, y, update_campaign_recipient)
              (off, callback-closed now rid st t.recipients closed, calls)
        | inr n ↦ rw (e, n, update_campaign_recipient) (off, closed, calls)
      ]
    ]

-- The jobs and the buttons do nothing to a cancelled campaign.
step-cancelled :
    (cfg : Config) (e : Event) (s t : Store)
    → IsCancelledSince s t
    → IsCancelledSince s (step cfg e t)
unfolding step start_campaign_job process_campaign_batch maybe_complete_campaign pause_campaign
    resume_campaign cancel_campaign retry_failed is_terminal
step-cancelled cfg (start now) s t h = ground arith
step-cancelled cfg (batch now) s t h = ground arith
step-cancelled cfg (finalize now) s t h = ground arith
step-cancelled cfg (pause now) s t h = ground arith
step-cancelled cfg (resume now) s t h = ground arith
step-cancelled cfg (cancel now) s t h = ground arith
step-cancelled cfg (retry now) s t h = ground arith
step-cancelled cfg (send now rid a) s t h = send-cancelled cfg now rid a s t h
step-cancelled cfg (callback now rid st) s t h = callback-cancelled now rid st s t h

run-cancelled :
    (cfg : Config) (es : List Event) (s t : Store)
    → IsCancelledSince s t
    → IsCancelledSince s (run cfg es t)
unfolding run
run-cancelled cfg [] s t h = h
run-cancelled cfg (e ∷ es) s t h =
    run-cancelled cfg es s (step cfg e t) (step-cancelled cfg e s t h)

cancel-IsCancelledSince :
    (now : ℕ) (s t : Store) → cancel_campaign now s ≡ some t → IsCancelledSince s t
unfolding cancel_campaign refresh_campaign_counters
cancel-IsCancelledSince now s t h = ground (arith, open_n-update_cancellable s.recipients)

-- Once the cancel button is accepted, no recipient is open, and whatever jobs, callbacks and buttons
-- follow, in any order, the campaign stays cancelled, no recipient is opened again, and the provider
-- is never called again.
pub cancel_campaign-run :
    (cfg : Config) (now : ℕ) (es : List Event) (s t : Store)
    → cancel_campaign now s ≡ some t
    → let u = run cfg es t in
      (u.campaign.status ≡ CampaignStatus.cancelled)
      × (open_n u.recipients ≡ 0)
      × (u.calls ≡ s.calls)
cancel_campaign-run cfg now es s t h = run-cancelled cfg es s t (cancel-IsCancelledSince now s t h)
