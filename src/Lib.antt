-- ===== src/Lib.antt =====
-- The WhatsApp agent backend: campaigns, delivery statuses, consent, eligibility and plans.
--
-- The program is a web service (app/routes) with workers on a queue (app/workers), services that both
-- use (app/services), MongoDB for documents and Redis for claims, counters and the queue. A campaign
-- is started and worked off by jobs: the start queues its recipients, the batch job enqueues one send
-- job for each, and the completion check ends the campaign when no recipient is open. A send job
-- claims its recipient and an idempotency key, asks whether the message may be sent, asks for a
-- permit, calls the provider, and records what came of it; errors are retried, skip the recipient,
-- fail it, or pause the campaign. The provider calls back with delivery statuses, which move messages,
-- blast recipients and campaign recipients forward. Consent and the 24-hour window say what may be
-- sent to whom, and the plan says what the tenant may use.
--
-- The files:
--   Prelude         shared names; Prelude/Text: text as code points with strip and lower
--   Delivery        app/services/delivery_status.py: normalize_status, should_apply_status,
--                   build_status_update; a callback is applied as app/services/status_callback.py does
--   Blast           app/services/status_callback.py, _update_blast_recipient
--   Dispatch        app/services/status_callback.py, apply_twilio_status_callback and
--                   apply_meta_status_update, over Delivery, Blast and Engine
--   Reconcile       app/services/reconciliation.py, reconcile_stale_messages
--   Campaign        app/models/campaign.py and app/services/campaign_service.py: statuses, counters,
--                   recipient_should_apply, finalize_status_from_counts
--   Engine          app/workers/campaign_tasks.py (Store, Jobs, Send), app/routes/campaigns.py and
--                   _update_campaign_recipient (Routes), app/services/idempotency.py (Store),
--                   app/services/retry_backoff.py, twilio_errors.py and campaign_provider.py (Errors);
--                   Run composes them as events in any order, and the other children are proofs
--   BlastWorker     app/workers/tasks.py, send_blast_messages and what it calls (Store, Send, Jobs), and
--                   the blast buttons of app/routes/campaigns.py (Buttons)
--   Inbound         app/services/inbound_whatsapp.py, with lead_service.py and phone_norm.py (Store,
--                   Steps, Pipeline)
--   KbChunk         app/services/kb/chunk.py (Parts and Lossless are about _split_long)
--   KbCrawl         app/services/kb/crawl.py: Scope and Slice (with the jobs of kb/ingest.py), and
--                   proofs in the other children
--   AiContext       app/services/ai_context.py: the current session and the budget of characters
--   Consent         app/services/whatsapp_consent.py, whatsapp_window.py and consent_ops.py
--   Eligibility     app/services/whatsapp_eligibility.py
--   Plans           app/billing/plans.py
--   Entitlements    app/services/entitlements.py, with its uses in app/routes/agents.py and
--                   app/workers/tasks.py
--   Billing         app/routes/billing.py, the webhook of Stripe: Accounts, Handlers and Webhook, and
--                   proofs in the other children
--   RateLimit       app/security/rate_limit.py, check_rate_limit
--   Throughput      app/services/throughput.py, acquire_send_permit and release_send_permit
--   Permissions     app/security/permissions.py
--   LeadImport      app/services/lead_import.py: Fields reads a row, Sheet the file, Leads writes the
--                   documents, Run is the loop, and the other children are proofs
--   LeadScoring     app/services/lead_scoring.py
--   PhoneNorm       app/services/phone_norm.py, normalize_e164
-- In each the child Tests holds runs at concrete inputs.
--
-- The state. Documents are records of the fields that the code reads or writes, a missing key and a
-- null being `none`; collections are lists in the order of their documents; times are natural numbers
-- (seconds; delays of the queue in milliseconds). A job or a route is one uninterrupted step from
-- store to store, and interleavings are sequences of such steps. All recursion is on lists but
-- three: `run_blast`, the chain of blast jobs that enqueue each other, takes fuel, and `enough_fuel` is
-- shown to be enough for it; so does `crawl`, the loop of the crawler, for which a full frontier per
-- page that is left is shown to be enough. The loop of `hard_split` takes the length of the sentence as its fuel,
-- which the bound on its parts shows to be enough.
--
-- The parameters. The provider, the queue, MongoDB and Redis are not part of the repository. What the
-- eligibility check, the permits, the template lookups and the provider answer to one send is the
-- `Attempt` of that event, over which the theorems quantify; the rate limit takes a `Redis` with the
-- laws that are documented of INCR and EXPIRE, and RateLimit/Counter gives one; Throughput takes a
-- `SlotCounter`, with those of DECR, and Throughput/Tests gives one; PhoneNorm takes the
-- digit class of regular expressions with what it needs of it, and KbChunk what the regular
-- expressions of its module match; LeadImport takes what csv, datetime and regular expressions
-- answer; KbCrawl takes `urlsplit`, `normalize_url` and fnmatch, and for each round what the clock,
-- robots.txt and the web answer. The claims of the engine
-- are kept as pairs of a recipient and a time of expiry, since the key is made of them.
-- MongoDB deletes the claims of inbound deliveries thirty days after `received_at`; the model lets them
-- count until then, and takes their deletion for immediate.
--
-- Not modelled: publishing, notifications, audit entries, metrics and texts of errors; the float rates
-- of a campaign; AI campaigns and their generation jobs; the scheduler; failures of the database in
-- the middle of a job; two jobs that run at the same time on one recipient; letters beyond ASCII in
-- lower(); the deletion of a blast under way, and the chat copy of its messages; the download of
-- media. Other calls of Stripe, authentication, queries and the clients of the providers are outside of
-- the development.
pub mod Prelude
pub mod Delivery
pub mod Blast
pub mod BlastWorker
pub mod Campaign
pub mod Engine
pub mod Plans
pub mod Entitlements
pub mod Consent
pub mod Eligibility
pub mod Inbound
pub mod RateLimit
pub mod KbChunk
pub mod LeadScoring
pub mod PhoneNorm
pub mod Throughput
pub mod Dispatch
pub mod Reconcile
pub mod Permissions
pub mod LeadImport
pub mod Billing
pub mod KbCrawl
pub mod AiContext
