-- ===== src/Plans/Tests.antt =====
-- The plans on concrete texts.
use ai_wa_chat_agent_be.Prelude.{◌≡◌, refl}
use ai_wa_chat_agent_be.Prelude.Text.{codes, normal, lower_code, lstrip, rstrip, is_space}
use ai_wa_chat_agent_be.Plans.{business, plan_name}

stored_business : normal (codes " Business ") ≡ plan_name business
unfolding normal plan_name lower_code lstrip rstrip is_space
stored_business = refl
