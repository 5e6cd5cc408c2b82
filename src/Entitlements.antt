-- ===== src/Entitlements.antt =====
-- app/services/entitlements.py: which plan applies to a user, the gates of its entitlements, and the
-- meter of AI conversations. The texts of the refusals and `usage_snapshot` are not modelled.
pub mod Gates
pub mod Meter
mod Tests
use ai_wa_chat_agent_be.Prelude.{
  ℕ, ◌+◌, Bool, true, false, not, ◌&&◌, ◌||◌, Option, none, some, List, [], ◌∷◌, if◌then◌else◌, ltb,
  leb, ◌==◌, any, length, ℤ, pos, negsuc, is_negative, is_zero, at_most,
}
use ai_wa_chat_agent_be.Prelude.Text.{Text, codes, normal, strip, is_empty, or_text, is_one_of}
use ai_wa_chat_agent_be.Plans.{
  Plan, Limits, Features, free, starter, professional, business, enterprise, normalize_plan_key,
  plan_limits, plan_features,
}

-- What the module reads of a user's document.
pub record User : Type 0 where
  pub plan : Option Text
  pub subscription_status : Option Text
  pub twilio_whatsapp_to : Option Text
  pub meta_connection_status : Option Text
  pub meta_phone_number_id : Option Text

-- ENTITLED_STATUSES
abbrev pub entitled_statuses : List Text
entitled_statuses =
    codes "trialing" ∷ codes "active" ∷ codes "past_due" ∷ codes "manual_override" ∷ []

unfoldable pub is_entitled : Option Text → Bool
is_entitled status = is_one_of (normal (or_text status (codes "none"))) entitled_statuses

-- the plan that applies, by the plan stored and by whether the subscription is in good standing
unfoldable pub plan_applied : Plan → Bool → Plan
plan_applied free entitled = free
plan_applied enterprise entitled = enterprise
plan_applied p entitled = if entitled then p else free

unfoldable pub effective_plan_key : User → Plan
effective_plan_key u = plan_applied (normalize_plan_key u.plan) (is_entitled u.subscription_status)

-- EntitlementError, less the texts
pub record EntitlementError : Type 0 where
  pub plan : Plan
  pub limit : Option ℤ
  pub current : Option ℕ

-- The gates: `none` lets the request pass, `some` is the exception. A counted or a boolean
-- entitlement is named by its field.
unfoldable pub require_feature : (Features → Bool) → User → Option EntitlementError
require_feature key u =
    let plan = effective_plan_key u in
    if key (plan_features plan)
    then none
    else some (record { plan = plan; limit = none; current = none })

unfoldable pub require_capacity : (Limits → ℤ) → ℕ → User → Option EntitlementError
require_capacity key current_count u =
    let plan = effective_plan_key u in
    let limit = key (plan_limits plan) in
    if is_negative limit
    then none
    else if at_most limit current_count
    then some (record { plan = plan; limit = some limit; current = some current_count })
    else none

unfoldable pub require_can_connect_number : User → Option EntitlementError
require_can_connect_number u =
    let plan = effective_plan_key u in
    if is_zero (plan_limits plan).whatsapp_numbers
    then some (record { plan = plan; limit = some (pos 0); current = none })
    else none

abbrev has_text : Option Text → Bool
has_text t = not (is_empty (strip (or_text t [])))

unfoldable pub connected_number_count : User → ℕ
connected_number_count u =
    (if has_text u.twilio_whatsapp_to then 1 else 0)
    + (if is_one_of (normal (or_text u.meta_connection_status []))
            (codes "connected" ∷ codes "legacy_poc" ∷ [])
          || has_text u.meta_phone_number_id
        then 1
        else 0)

-- The month's set of a tenant's leads, each once. `none` is Redis out of reach.
abbrev pub Meter : Type 0
Meter = Option (List ℕ)

abbrev pub is_member : ℕ → List ℕ → Bool
is_member lead set = any (λ i. i == lead) set

unfoldable pub ai_conversation_allowed : Meter → ℕ → ℤ → Bool
ai_conversation_allowed meter lead (negsuc n) = true
ai_conversation_allowed none lead (pos n) = not (n == 0)
ai_conversation_allowed (some set) lead (pos n) =
    not (n == 0) && (is_member lead set || ltb (length set) n)

-- `SADD`
unfoldable pub record_ai_conversation : ℕ → Meter → Meter
record_ai_conversation lead none = none
record_ai_conversation lead (some set) = some (if is_member lead set then set else lead ∷ set)

-- app/workers/tasks.py: the reply job asks, and counts the lead when it may reply.
unfoldable pub meter_reply : ℤ → ℕ → Meter → Meter × Bool
meter_reply limit lead meter =
    if ai_conversation_allowed meter lead limit
    then (record_ai_conversation lead meter, true)
    else (meter, false)
