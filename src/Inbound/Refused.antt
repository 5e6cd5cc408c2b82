-- ===== src/Inbound/Refused.antt =====
-- A message that is refused.
use ai_wa_chat_agent_be.Prelude.{◌≡◌, Bool, true, false}
use ai_wa_chat_agent_be.Prelude.Text.{Text}
use ai_wa_chat_agent_be.Inbound.Store.{
  InboundStore, Outcome, missing_id, invalid_phone, no_tenant, self_sender, blacklisted,
  InboundResult,
}
use ai_wa_chat_agent_be.Inbound.Stop.{NoJobs}

-- Nothing is done for the sender.
unfoldable pub is_refused : Outcome → Bool
is_refused missing_id = true
is_refused invalid_phone = true
is_refused no_tenant = true
is_refused self_sender = true
is_refused blacklisted = true
is_refused _ = false

-- From `s` to `t`: if the result is a refusal, no collection but the claims has changed, and no job is
-- asked for.
abbrev pub IsIdle : InboundStore → InboundStore → InboundResult → Type 0
IsIdle s t r =
    is_refused r.outcome ≡ true
    → (t.tenant ≡ s.tenant) × (t.message_keys ≡ s.message_keys) × NoJobs r

-- but the claims
abbrev IsSame : InboundStore → InboundStore → Type 0
IsSame s t = (t.tenant ≡ s.tenant) × (t.message_keys ≡ s.message_keys)
