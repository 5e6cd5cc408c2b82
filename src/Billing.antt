-- ===== src/Billing.antt =====
-- app/routes/billing.py: the webhook of Stripe. Accounts has the users and the rules for one of them,
-- Handlers the events, Webhook the claim and the route; the other children are proofs. The checkout,
-- portal and invoice routes are calls of Stripe and are not modelled.
pub mod Accounts
pub mod Handlers
pub mod Webhook
pub mod Manual
pub mod Entitled
pub mod Redelivery
mod Tests
