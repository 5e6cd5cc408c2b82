-- ===== src/Engine/Completion.antt =====
-- The open recipients of a campaign that is over, through each event of the engine.
use ai_wa_chat_agent_be.Prelude.{
  ℕ, suc, ◌≡◌, refl, false, Option, none, some, List, [], ◌∷◌, arith, inl, inr, ◌*◌, max, or_else,
  select, take, length, ◌==◌, max, Bool-cases, Option-cases,
}
use ai_wa_chat_agent_be.Delivery.{Status, queued}
use ai_wa_chat_agent_be.Campaign.{is_open, is_terminal, recipient_should_apply}
use ai_wa_chat_agent_be.Engine.Store.{
  Recipient, is_running, send_recipient, Store, Config, find_one, update_one, has_id, open_n,
  set_recipient, is_running, enqueue, refresh_campaign_counters,
}
use ai_wa_chat_agent_be.Engine.Jobs.{
  start_campaign_job, set_running, process_campaign_batch, enqueue_batch, enqueue_sends, ids,
  is_due, is_startable,
}
use ai_wa_chat_agent_be.Engine.Routes.{
  pause_campaign, resume_campaign, cancel_campaign, retry_failed, mapped, callback_fields,
  update_campaign_recipient,
}
use ai_wa_chat_agent_be.Engine.Run.{
  Event, start, batch, finalize, pause, resume, cancel, retry, send, callback, step, run,
}
use ai_wa_chat_agent_be.Engine.Closing.{
  IsSettled, open_n-update_one, open_n-update_cancellable, maybe_complete-IsSettled,
  active-IsSettled, refresh-IsSettled, send-IsSettled,
}

pub enqueue_sends-keeps :
    (delay i : ℕ) (rids : List ℕ) (s : Store)
    → ((enqueue_sends delay i rids s).campaign ≡ s.campaign)
      × ((enqueue_sends delay i rids s).recipients ≡ s.recipients)
unfolding enqueue_sends enqueue
enqueue_sends-keeps delay i [] s = (refl, refl)
enqueue_sends-keeps delay i (rid ∷ rids) s =
    enqueue_sends-keeps delay (suc i) rids (enqueue (delay * i) (send_recipient rid) s)

pub enqueue_batch-keeps :
    (cfg : Config) (rids : List ℕ) (s : Store)
    → ((enqueue_batch cfg rids s).campaign ≡ s.campaign)
      × ((enqueue_batch cfg rids s).recipients ≡ s.recipients)
unfolding enqueue_batch enqueue
enqueue_batch-keeps cfg rids s = ground (arith, enqueue_sends-keeps cfg.send_delay_ms 0 rids s)

batch-IsSettled :
    (cfg : Config) (now : ℕ) (s : Store)
    → IsSettled s
    → IsSettled (process_campaign_batch cfg now s)
unfolding process_campaign_batch
batch-IsSettled cfg now s h = elim (Bool-cases (is_running s.campaign.status)) [
  | inl r ↦
      let due = ids (take (max 1 cfg.batch_size) (select (is_due now) s.recipients)) in
      let (c, rs) = enqueue_batch-keeps cfg due s in
      elim (Bool-cases (length due == 0)) [
        | inl e ↦ rw (r, e, process_campaign_batch) (maybe_complete-IsSettled now s h)
        | inr ne ↦ rw (r, ne, process_campaign_batch) (rw (c, rs) h)
      ]
  | inr nr ↦ rw (nr, process_campaign_batch) h
]

start-IsSettled :
    (cfg : Config) (now : ℕ) (s : Store) → IsSettled s → IsSettled (start_campaign_job cfg now s)
unfolding start_campaign_job set_running is_terminal
start-IsSettled cfg now s h = elim (Bool-cases (is_startable s.campaign.status)) [
  | inl y ↦
      rw (y, start_campaign_job)
        (batch-IsSettled cfg now (refresh_campaign_counters (set_running now s))
          (refresh-IsSettled (set_running now s) (active-IsSettled (set_running now s) refl)))
  | inr n ↦ rw (n, start_campaign_job) h
]

cancel-IsSettled :
    (now : ℕ) (s : Store) → IsSettled s → IsSettled (or_else (cancel_campaign now s) s)
unfolding cancel_campaign refresh_campaign_counters
cancel-IsSettled now s h = ground (arith, open_n-update_cancellable s.recipients)

pause-IsSettled : (now : ℕ) (s : Store) → IsSettled s → IsSettled (or_else (pause_campaign now s) s)
unfolding pause_campaign is_terminal
pause-IsSettled now s h = ground arith

resume-IsSettled : (s : Store) → IsSettled s → IsSettled (or_else (resume_campaign s) s)
unfolding resume_campaign is_terminal enqueue
resume-IsSettled s h = ground arith

retry-IsSettled : (s : Store) → IsSettled s → IsSettled (or_else (retry_failed s) s)
unfolding retry_failed is_terminal enqueue
retry-IsSettled s h = ground arith

mapped-closed : (st : Status) → is_open (mapped st) ≡ false
unfolding mapped is_open
mapped-closed queued = refl
mapped-closed _ = refl

pub callback-closed :
    (now rid : ℕ) (st : Status) (rs : List Recipient)
    → open_n rs ≡ 0
    → open_n (update_one (has_id rid) (callback_fields now st) rs) ≡ 0
unfolding callback_fields
callback-closed now rid st rs h =
    omega
      (arith, open_n-update_one (has_id rid) (callback_fields now st) rs (λ r. mapped-closed st))

callback-IsSettled :
    (now rid : ℕ) (st : Option Status) (s : Store)
    → IsSettled s
    → IsSettled (update_campaign_recipient now rid st s)
unfolding update_campaign_recipient refresh_campaign_counters set_recipient
callback-IsSettled now rid none s h = h
callback-IsSettled now rid (some st) s h =
    elim (Option-cases (find_one (has_id rid) s.recipients)) [
      | inl e ↦ rw (e, update_campaign_recipient) h
      | inr (r, e) ↦ elim (Bool-cases (recipient_should_apply (some r.status) (mapped st))) [
        | inl y ↦
            rw (e, y, update_campaign_recipient)
              (λ t. callback-closed now rid st s.recipients (h t))
        | inr n ↦ rw (e, n, update_campaign_recipient) h
      ]
    ]

step-IsSettled : (cfg : Config) (e : Event) (s : Store) → IsSettled s → IsSettled (step cfg e s)
unfolding step
step-IsSettled cfg (start now) s h = start-IsSettled cfg now s h
step-IsSettled cfg (batch now) s h = batch-IsSettled cfg now s h
step-IsSettled cfg (finalize now) s h = maybe_complete-IsSettled now s h
step-IsSettled cfg (pause now) s h = pause-IsSettled now s h
step-IsSettled cfg (resume now) s h = resume-IsSettled s h
step-IsSettled cfg (cancel now) s h = cancel-IsSettled now s h
step-IsSettled cfg (retry now) s h = retry-IsSettled s h
step-IsSettled cfg (send now rid a) s h = send-IsSettled cfg now rid a s h
step-IsSettled cfg (callback now rid st) s h = callback-IsSettled now rid st s h

-- Whatever the order of jobs, callbacks and buttons, a campaign that is completed, partially
-- completed, failed or cancelled has no recipient that is pending, queued, processing or retrying,
-- if that held at first.
pub run-IsSettled :
    (cfg : Config) (es : List Event) (s : Store) → IsSettled s → IsSettled (run cfg es s)
unfolding run
run-IsSettled cfg [] s h = h
run-IsSettled cfg (e ∷ es) s h = run-IsSettled cfg es (step cfg e s) (step-IsSettled cfg e s h)
