-- ===== src/Engine/Run.antt =====
-- The engine as a sequence of events, in any order: the queue runs a job at least once and late, the
-- provider calls back, and the tenant presses the buttons. Each event is one uninterrupted step.
use ai_wa_chat_agent_be.Prelude.{ℕ, Option, List, [], ◌∷◌, or_else}
use ai_wa_chat_agent_be.Delivery.{Status}
use ai_wa_chat_agent_be.Engine.Store.{Store, Config, maybe_complete_campaign}
use ai_wa_chat_agent_be.Engine.Jobs.{start_campaign_job, process_campaign_batch}
use ai_wa_chat_agent_be.Engine.Send.{Attempt, send_campaign_recipient}
use ai_wa_chat_agent_be.Engine.Routes.{
  pause_campaign, resume_campaign, cancel_campaign, retry_failed, update_campaign_recipient,
}

-- Each event with the time at which it is handled.
pub data Event : Type 0 where
  start batch finalize pause resume cancel retry : ℕ → Event
  send : ℕ → ℕ → Attempt → Event
  callback : ℕ → ℕ → Option Status → Event

unfoldable pub event_time : Event → ℕ
event_time (start now) = now
event_time (batch now) = now
event_time (finalize now) = now
event_time (pause now) = now
event_time (resume now) = now
event_time (cancel now) = now
event_time (retry now) = now
event_time (send now rid a) = now
event_time (callback now rid st) = now

unfoldable pub step : Config → Event → Store → Store
step cfg (start now) s = start_campaign_job cfg now s
step cfg (batch now) s = process_campaign_batch cfg now s
step cfg (finalize now) s = maybe_complete_campaign now s
step cfg (pause now) s = or_else (pause_campaign now s) s
step cfg (resume now) s = or_else (resume_campaign s) s
step cfg (cancel now) s = or_else (cancel_campaign now s) s
step cfg (retry now) s = or_else (retry_failed s) s
step cfg (send now rid a) s = send_campaign_recipient cfg now rid a s
step cfg (callback now rid st) s = update_campaign_recipient now rid st s

unfoldable pub run : Config → List Event → Store → Store
run cfg [] s = s
run cfg (e ∷ es) s = run cfg es (step cfg e s)
