-- ===== src/LeadScoring/Scores.antt =====
-- What a score can be.
use ai_wa_chat_agent_be.Prelude.{
  ℕ, ◌≤◌, ◌≡◌, ◌⊎◌, Bool, true, false, ◌||◌, Option, List, arith, select,
}
use ai_wa_chat_agent_be.LeadScoring.{
  hot, Message, map_score_label, text_blob, contains_any, latest, recency_points, purchase_keywords,
  budget_keywords, booking_keywords, negative_keywords, calculate_lead_score,
}

recency_points-le : (now : ℕ) (o : Option ℕ) → recency_points now o ≤ 25
unfolding recency_points
recency_points-le now o = ground arith

-- A score is 0, or from 8 to 100, and the label is the one of the score, on every branch.
pub score-le :
    (blacklisted : Bool) (messages : List Message) (now : ℕ)
    → let (score, label) = calculate_lead_score blacklisted messages now in
      ((score ≡ 0) ⊎ ((8 ≤ score) × (score ≤ 100))) × (map_score_label score ≡ label)
unfolding calculate_lead_score map_score_label
score-le blacklisted messages now = ground arith

-- The keywords of interest that a text has.
abbrev pub shows_interest : List Message → Bool
shows_interest messages =
    let blob = text_blob (select (λ m. m.inbound) messages) in
    contains_any blob purchase_keywords
    || contains_any blob budget_keywords
    || contains_any blob booking_keywords

-- A lead is hot only if it is not blacklisted, says nothing negative, and shows interest in a
-- purchase, a price or a booking: the number of its messages and their age are never enough.
pub hot_lead :
    (blacklisted : Bool) (messages : List Message) (now : ℕ)
    → (calculate_lead_score blacklisted messages now).1 ≡ hot
    → (blacklisted ≡ false)
      × (contains_any (text_blob (select (λ m. m.inbound) messages)) negative_keywords ≡ false)
      × (shows_interest messages ≡ true)
unfolding calculate_lead_score map_score_label
hot_lead blacklisted messages now h =
    ground (arith, recency_points-le now (latest (select (λ m. m.inbound) messages)))
