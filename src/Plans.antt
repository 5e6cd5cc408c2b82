-- ===== src/Plans.antt =====
-- app/billing/plans.py: the catalogue of plans and the key of a plan.
pub mod Ladder
pub mod Keys
mod Tests
use ai_wa_chat_agent_be.Prelude.{
  ℕ, Bool, true, false, Option, none, some, List, [], ◌∷◌, or_else, ℤ, pos, negsuc, if◌then◌else◌,
}
use ai_wa_chat_agent_be.Prelude.Text.{Text, codes, normal, or_text, lookup_text, text_eq}

-- The keys of PLAN_CATALOG, which are ALL_PLAN_KEYS.
pub data Plan : Type 0 where
  free starter professional business enterprise : Plan

unfoldable pub plan_name : Plan → Text
plan_name free = codes "free"
plan_name starter = codes "starter"
plan_name professional = codes "professional"
plan_name business = codes "business"
plan_name enterprise = codes "enterprise"

pub record Limits : Type 0 where
  pub whatsapp_numbers : ℤ
  pub team_members : ℤ
  pub ai_agents : ℤ
  pub knowledge_bases : ℤ
  pub kb_chunks : ℤ
  pub ai_conversations_month : ℤ

pub record Features : Type 0 where
  pub unlimited_contacts : Bool
  pub campaigns : Bool
  pub whatsapp_broadcast : Bool
  pub api_access : Bool
  pub webhooks : Bool
  pub custom_branding : Bool
  pub sso : Bool
  pub white_label : Bool

-- The counted entitlements of the catalogue; -1 is no limit.
unfoldable pub plan_limits : Plan → Limits
plan_limits free = record {
  whatsapp_numbers = pos 0;
  team_members = pos 1;
  ai_agents = pos 0;
  knowledge_bases = pos 0;
  kb_chunks = pos 0;
  ai_conversations_month = pos 0;
}
plan_limits starter = record {
  whatsapp_numbers = pos 1;
  team_members = pos 2;
  ai_agents = pos 1;
  knowledge_bases = pos 1;
  kb_chunks = pos 500;
  ai_conversations_month = pos 500;
}
plan_limits professional = record {
  whatsapp_numbers = pos 1;
  team_members = pos 5;
  ai_agents = pos 5;
  knowledge_bases = pos 5;
  kb_chunks = pos 2000;
  ai_conversations_month = pos 5000;
}
plan_limits business = record {
  whatsapp_numbers = pos 1;
  team_members = pos 15;
  ai_agents = negsuc 0;
  knowledge_bases = pos 20;
  kb_chunks = pos 5000;
  ai_conversations_month = pos 25000;
}
plan_limits enterprise = record {
  whatsapp_numbers = negsuc 0;
  team_members = negsuc 0;
  ai_agents = negsuc 0;
  knowledge_bases = negsuc 0;
  kb_chunks = pos 10000;
  ai_conversations_month = negsuc 0;
}

-- a catalogue entry whose features are listed in the order of the source
abbrev features : Bool → Bool → Bool → Bool → Bool → Bool → Bool → Bool → Features
features contacts campaigns broadcast api webhooks branding sso label = record {
  unlimited_contacts = contacts;
  campaigns = campaigns;
  whatsapp_broadcast = broadcast;
  api_access = api;
  webhooks = webhooks;
  custom_branding = branding;
  sso = sso;
  white_label = label;
}

-- The entitlements that are had or not.
unfoldable pub plan_features : Plan → Features
plan_features free = features false false false false false false false false
plan_features starter = features false false false false false false false false
plan_features professional = features true true true false false false false false
plan_features business = features true true true true true true false false
plan_features enterprise = features true true true true true true true true

-- price_gbp; the enterprise plan has none.
unfoldable pub price_gbp : Plan → Option ℕ
price_gbp free = some 0
price_gbp starter = some 39
price_gbp professional = some 79
price_gbp business = some 149
price_gbp enterprise = none

-- stripe_checkout, which is also membership of PAID_PLAN_KEYS
unfoldable pub stripe_checkout : Plan → Bool
stripe_checkout free = false
stripe_checkout starter = true
stripe_checkout professional = true
stripe_checkout business = true
stripe_checkout enterprise = false

-- public_plans, each by its key
unfoldable pub public_plans : Bool → List Plan
public_plans include_free =
    let paid = starter ∷ professional ∷ business ∷ enterprise ∷ [] in
    if include_free then free ∷ paid else paid

-- `_PLAN_ALIASES.get(key, key)`
unfoldable pub plan_alias : Text → Text
plan_alias key =
    if text_eq key (codes "pro")
    then codes "professional"
    else if text_eq key (codes "prof")
    then codes "professional"
    else key

abbrev pub plan_keys : List (Text × Plan)
plan_keys =
    (codes "free", free)
    ∷ (codes "starter", starter)
    ∷ (codes "professional", professional)
    ∷ (codes "business", business)
    ∷ (codes "enterprise", enterprise)
    ∷ []

unfoldable pub plan_of_key : Text → Plan
unfolding plan_alias lookup_text
plan_of_key key = or_else (lookup_text (plan_alias key) plan_keys) free

unfoldable pub normalize_plan_key : Option Text → Plan
normalize_plan_key raw = plan_of_key (normal (or_text raw (codes "free")))
