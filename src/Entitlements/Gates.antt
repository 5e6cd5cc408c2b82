-- ===== src/Entitlements/Gates.antt =====
-- The gates of the plan as the routes use them: app/routes/agents.py and app/routes/knowledge.py
-- count the documents, ask `require_capacity` and insert one more.
use ai_wa_chat_agent_be.Prelude.{
  ℕ, zero, suc, ◌+◌, ◌≡◌, ◌≢◌, refl, true, false, arith, min, is_some, if◌then◌else◌, ℤ, pos,
  negsuc, leb,
}
use ai_wa_chat_agent_be.Plans.{
  Plan, Limits, free, starter, professional, business, enterprise, normalize_plan_key, plan_limits,
  plan_features,
}
use ai_wa_chat_agent_be.Entitlements.{
  User, is_entitled, plan_applied, effective_plan_key, require_feature, require_capacity,
  require_can_connect_number,
}

-- One request to create: the count of documents after it.
unfoldable pub create_within_capacity : (Limits → ℤ) → User → ℕ → ℕ
create_within_capacity key u existing =
    if is_some (require_capacity key existing u) then existing else existing + 1

-- `n` requests, one after the other
unfoldable pub create_times : (Limits → ℤ) → User → ℕ → ℕ → ℕ
unfolding create_within_capacity
create_times key u zero existing = existing
create_times key u (suc n) existing = create_times key u n (create_within_capacity key u existing)

create-limited :
    (key : Limits → ℤ) (u : User) (m c : ℕ)
    → key (plan_limits (effective_plan_key u)) ≡ pos m
    → create_within_capacity key u c ≡ (if leb m c then c else c + 1)
unfolding create_within_capacity require_capacity
create-limited key u m c h = rw (h, require_capacity) (ground arith)

-- However many requests come, one after the other, exactly as many succeed as the limit of the plan
-- leaves room for; what was there before is kept, also where it stands above the limit.
pub create_times-limited :
    (key : Limits → ℤ) (u : User) (m n c : ℕ)
    → key (plan_limits (effective_plan_key u)) ≡ pos m
    → create_times key u n c ≡ (if leb m c then c else min (c + n) m)
unfolding create_times
create_times-limited key u m zero c h = ground arith
create_times-limited key u m (suc n) c h =
    rw (create-limited key u m c h)
      (ground (arith, create_times-limited key u m n c h, create_times-limited key u m n (c + 1) h))

-- Where the plan sets no limit, every request succeeds.
pub create_times-unlimited :
    (key : Limits → ℤ) (u : User) (m n c : ℕ)
    → key (plan_limits (effective_plan_key u)) ≡ negsuc m
    → create_times key u n c ≡ c + n
unfolding create_times create_within_capacity require_capacity
create_times-unlimited key u m zero c h = omega arith
create_times-unlimited key u m (suc n) c h =
    rw (h, require_capacity) (ground (arith, create_times-unlimited key u m n (c + 1) h))

unentitled_is_free : (p : Plan) → p ≢ enterprise → plan_applied p false ≡ free
unfolding plan_applied
unentitled_is_free free ne = refl
unentitled_is_free starter ne = refl
unentitled_is_free professional ne = refl
unentitled_is_free business ne = refl
unentitled_is_free enterprise ne = absurd (ne refl)

lapsed_is_free :
    (u : User)
    → is_entitled u.subscription_status ≡ false
    → normalize_plan_key u.plan ≢ enterprise
    → effective_plan_key u ≡ free
unfolding effective_plan_key
lapsed_is_free u h ne = rw h (unentitled_is_free (normalize_plan_key u.plan) ne)

-- A user whose subscription is in none of the entitled states, and whose plan is not the enterprise
-- plan, is refused at every gate: connecting a number, an agent or a knowledge base whatever the count,
-- campaigns and broadcasts.
pub lapsed_refused :
    (u : User) (existing : ℕ)
    → is_entitled u.subscription_status ≡ false
    → normalize_plan_key u.plan ≢ enterprise
    → (is_some (require_can_connect_number u) ≡ true)
      × (is_some (require_capacity (λ l. l.ai_agents) existing u) ≡ true)
      × (is_some (require_capacity (λ l. l.knowledge_bases) existing u) ≡ true)
      × (is_some (require_feature (λ f. f.campaigns) u) ≡ true)
      × (is_some (require_feature (λ f. f.whatsapp_broadcast) u) ≡ true)
unfolding require_can_connect_number require_capacity require_feature plan_limits plan_features
lapsed_refused u existing h ne = rw (lapsed_is_free u h ne) (ground arith)
