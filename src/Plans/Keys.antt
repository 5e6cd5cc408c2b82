-- ===== src/Plans/Keys.antt =====
-- The stored text of a plan.
use ai_wa_chat_agent_be.Prelude.{◌≡◌, [], ◌∷◌, refl, ◌∙◌, ap, some}
use ai_wa_chat_agent_be.Prelude.Text.{Text, normal, lookup_text, text_eq}
use ai_wa_chat_agent_be.Plans.{
  Plan, free, starter, professional, business, enterprise, plan_name, plan_alias, plan_of_key,
  normalize_plan_key,
}

pub plan_of_key-plan_name : (p : Plan) → plan_of_key (plan_name p) ≡ p
unfolding plan_name plan_of_key plan_alias lookup_text text_eq
plan_of_key-plan_name free = refl
plan_of_key-plan_name starter = refl
plan_of_key-plan_name professional = refl
plan_of_key-plan_name business = refl
plan_of_key-plan_name enterprise = refl

blank_not_a_name : (p : Plan) → normal [] ≡ plan_name p → free ≡ p
unfolding normal plan_name
blank_not_a_name free h = refl
blank_not_a_name _ h = cc

-- A stored text that reads as the name of a plan, in any case and with white space around it, is
-- read back as that plan.
pub normalize_plan_key-name :
    (p : Plan) (t : Text) → normal t ≡ plan_name p → normalize_plan_key (some t) ≡ p
unfolding normalize_plan_key plan_name normal
normalize_plan_key-name p [] h = plan_of_key-plan_name free ∙ blank_not_a_name p h
normalize_plan_key-name p (c ∷ cs) h = ap plan_of_key h ∙ plan_of_key-plan_name p
