-- ===== src/BlastWorker.antt =====
-- The blast worker: app/workers/tasks.py (`send_blast_messages` and what it calls) and the buttons of
-- app/routes/campaigns.py, over one blast, its recipients and the bulk queue.
pub mod Store
pub mod Send
pub mod Jobs
pub mod Buttons
pub mod Rows
pub mod OneWrite
pub mod Weight
pub mod Batch
pub mod Ends
pub mod Stops
pub mod Cancelled
pub mod Once
pub mod Done
pub mod Outcome
mod Tests
