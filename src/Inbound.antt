-- ===== src/Inbound.antt =====
-- app/services/inbound_whatsapp.py: a customer's message, from the claim of its delivery to the jobs
-- that it asks for, with what it calls of lead_service.py, phone_norm.py, whatsapp_consent.py and
-- consent_ops.py.
pub mod Store
pub mod Steps
pub mod Pipeline
pub mod Redelivery
pub mod Refused
pub mod Stop
mod Tests
