-- ===== src/LeadScoring/Tests.antt =====
-- Scores of concrete conversations.
use ai_wa_chat_agent_be.Prelude.{◌≡◌, refl, true, false, some, List, [], ◌∷◌}
use ai_wa_chat_agent_be.Prelude.Text.{codes, lower, lower_code, contains, begins_with}
use ai_wa_chat_agent_be.LeadScoring.{
  hot, Message, map_score_label, text_blob, join, contains_any, latest, recency_points,
  calculate_lead_score,
}

abbrev keen : List Message
keen =
    record { inbound = true; message = codes "Can I book a demo"; created_at = some 100 }
    ∷ record { inbound = false; message = codes "of course"; created_at = some 110 }
    ∷ record { inbound = true; message = codes "what is the price"; created_at = some 120 }
    ∷ []

keen-hot : (calculate_lead_score false keen 200).1 ≡ hot
unfolding calculate_lead_score map_score_label text_blob join contains_any contains begins_with
    lower lower_code latest recency_points
keen-hot = refl
