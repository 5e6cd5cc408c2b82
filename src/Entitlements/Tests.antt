-- ===== src/Entitlements/Tests.antt =====
-- The gates and the meter on concrete users.
use ai_wa_chat_agent_be.Prelude.{
  ℕ, ◌≤◌, ◌≡◌, refl, true, none, some, List, [], ◌∷◌, max, length, pos,
}
use ai_wa_chat_agent_be.Prelude.Text.{
  codes, normal, lower_code, lstrip, rstrip, is_space, is_one_of, text_eq, lookup_text,
}
use ai_wa_chat_agent_be.Plans.{normalize_plan_key, plan_of_key, plan_alias, plan_limits}
use ai_wa_chat_agent_be.Entitlements.{
  User, is_entitled, plan_applied, effective_plan_key, ai_conversation_allowed,
}
use ai_wa_chat_agent_be.Entitlements.Meter.{meter_replies, meter_replies-bounded}

abbrev paying : User
paying = record {
  plan = some (codes "pro");
  subscription_status = some (codes "active");
  twilio_whatsapp_to = none;
  meta_connection_status = none;
  meta_phone_number_id = none;
}

paying-ai_agents : (plan_limits (effective_plan_key paying)).ai_agents ≡ pos 5
unfolding plan_limits effective_plan_key plan_applied is_entitled normalize_plan_key plan_of_key
    plan_alias lookup_text text_eq is_one_of normal lower_code lstrip rstrip is_space
paying-ai_agents = refl

meter_replies-bounded_example :
    (after : List ℕ) × (meter_replies (pos 2) (7 ∷ 8 ∷ 7 ∷ 9 ∷ []) (some []) ≡ some after)
    × (length after ≤ max 2 0)
meter_replies-bounded_example = meter_replies-bounded 2 (7 ∷ 8 ∷ 7 ∷ 9 ∷ []) []

one_allowed : ai_conversation_allowed (some (8 ∷ [])) 7 (pos 2) ≡ true
unfolding ai_conversation_allowed
one_allowed = refl
