-- ===== src/Plans/Ladder.antt =====
-- The order of the plans in the catalogue against what each entitles to.
use ai_wa_chat_agent_be.Prelude.{
  ℕ, ◌≤◌, ◌≡◌, refl, Bool, true, false, not, ◌&&◌, ◌||◌, arith, ℤ, pos, negsuc, leb,
}
use ai_wa_chat_agent_be.Plans.{
  Plan, free, starter, professional, business, enterprise, Limits, Features, plan_limits,
  plan_features,
}

-- The place of a plan in the catalogue.
abbrev pub plan_rank : Plan → ℕ
plan_rank free = 0
plan_rank starter = 1
plan_rank professional = 2
plan_rank business = 3
plan_rank enterprise = 4

-- `a` allows no more than `b`; a negative number is no limit.
abbrev pub limit_leb : ℤ → ℤ → Bool
limit_leb a (negsuc n) = true
limit_leb (pos m) (pos n) = leb m n
limit_leb (negsuc m) (pos n) = false

abbrev pub limits_leb : Limits → Limits → Bool
limits_leb a b =
    limit_leb a.whatsapp_numbers b.whatsapp_numbers
    && limit_leb a.team_members b.team_members
    && limit_leb a.ai_agents b.ai_agents
    && limit_leb a.knowledge_bases b.knowledge_bases
    && limit_leb a.kb_chunks b.kb_chunks
    && limit_leb a.ai_conversations_month b.ai_conversations_month

abbrev pub features_leb : Features → Features → Bool
features_leb a b =
    (not a.unlimited_contacts || b.unlimited_contacts)
    && (not a.campaigns || b.campaigns)
    && (not a.whatsapp_broadcast || b.whatsapp_broadcast)
    && (not a.api_access || b.api_access)
    && (not a.webhooks || b.webhooks)
    && (not a.custom_branding || b.custom_branding)
    && (not a.sso || b.sso)
    && (not a.white_label || b.white_label)

-- A plan that stands later in the catalogue takes away nothing: each of its limits is at least as
-- high, a negative limit being the highest, and it has every feature of an earlier plan.
pub plan_ladder :
    (p q : Plan)
    → plan_rank p ≤ plan_rank q
    → (limits_leb (plan_limits p) (plan_limits q) ≡ true)
      × (features_leb (plan_features p) (plan_features q) ≡ true)
unfolding plan_limits plan_features
plan_ladder free free h = (refl, refl)
plan_ladder free starter h = (refl, refl)
plan_ladder _ _ h = ground arith
