-- ===== src/Engine.antt =====
-- The campaign engine: app/workers/campaign_tasks.py (the jobs), app/routes/campaigns.py (pause,
-- resume, cancel, retry) and the callback of app/services/status_callback.py, over one campaign, its
-- recipients, the idempotency claims of Redis and the job queue.
pub mod Store
pub mod Errors
pub mod Jobs
pub mod Send
pub mod Routes
pub mod Run
pub mod Closing
pub mod Completion
pub mod Calls
pub mod Once
pub mod Lookup
pub mod Sent
pub mod Stuck
pub mod Deferred
pub mod Cancelled
mod Tests
