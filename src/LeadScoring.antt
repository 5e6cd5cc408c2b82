-- ===== src/LeadScoring.antt =====
-- app/services/lead_scoring.py: the score of a lead from its messages, a time being in seconds. The
-- store of the score is not modelled.
pub mod Scores
mod Tests
use ai_wa_chat_agent_be.Prelude.{
  ℕ, ◌+◌, ◌*◌, Bool, true, false, ◌||◌, Option, none, some, List, [], ◌∷◌, ◌++◌, if◌then◌else◌, leb,
  ltb, ◌==◌, min, max, length, select,
}
use ai_wa_chat_agent_be.Prelude.Text.{Text, codes, lower, contains}

pub data Label : Type 0 where
  hot warm cold : Label

pub record Message : Type 0 where
  pub inbound : Bool
  pub message : Text
  pub created_at : Option ℕ

abbrev pub purchase_keywords : List Text
purchase_keywords =
    codes "buy"
    ∷ codes "purchase"
    ∷ codes "order"
    ∷ codes "interested"
    ∷ codes "deal"
    ∷ codes "offer"
    ∷ codes "pricing"
    ∷ codes "quote"
    ∷ codes "sign up"
    ∷ codes "signup"
    ∷ []

abbrev pub budget_keywords : List Text
budget_keywords =
    codes "budget"
    ∷ codes "price"
    ∷ codes "cost"
    ∷ codes "afford"
    ∷ codes "expensive"
    ∷ codes "cheap"
    ∷ (0xa3 ∷ [])
    ∷ codes "$"
    ∷ codes "usd"
    ∷ codes "gbp"
    ∷ codes "how much"
    ∷ []

abbrev pub booking_keywords : List Text
booking_keywords =
    codes "book"
    ∷ codes "booking"
    ∷ codes "demo"
    ∷ codes "call"
    ∷ codes "meeting"
    ∷ codes "appointment"
    ∷ codes "schedule"
    ∷ codes "contact me"
    ∷ codes "speak to"
    ∷ codes "talk to"
    ∷ codes "callback"
    ∷ codes "call back"
    ∷ []

abbrev pub negative_keywords : List Text
negative_keywords =
    codes "stop"
    ∷ codes "unsubscribe"
    ∷ codes "cancel"
    ∷ codes "not interested"
    ∷ codes "no thanks"
    ∷ codes "no thank you"
    ∷ codes "remove me"
    ∷ codes "don't contact"
    ∷ codes "do not contact"
    ∷ codes "leave me alone"
    ∷ []

unfoldable pub map_score_label : ℕ → Label
map_score_label score = if leb 70 score then hot else if leb 40 score then warm else cold

-- `" ".join(parts)`
unfoldable pub join : List Text → Text
join [] = []
join (t ∷ []) = t
join (t ∷ u ∷ ts) = let rest = join (u ∷ ts) in t ++ (codes " " ++ rest)

abbrev texts : List Message → List Text
texts [] = []
texts (m ∷ ms) = m.message ∷ texts ms

-- _text_blob, of inbound messages
unfoldable pub text_blob : List Message → Text
text_blob ms = lower (join (texts ms))

unfoldable pub contains_any : Text → List Text → Bool
contains_any text [] = false
contains_any text (k ∷ ks) = contains k text || contains_any text ks

abbrev later : Option ℕ → Option ℕ → Option ℕ
later none best = best
later (some t) none = some t
later (some t) (some u) = some (max t u)

unfoldable pub latest : List Message → Option ℕ
latest [] = none
latest (m ∷ ms) = later m.created_at (latest ms)

-- The points for the age of the latest message.
unfoldable pub recency_points : ℕ → Option ℕ → ℕ
recency_points now none = 0
recency_points now (some t) =
    if leb now (t + 24 * 3600)
    then 25
    else if leb now (t + 7 * 24 * 3600)
    then 15
    else if leb now (t + 30 * 24 * 3600)
    then 5
    else 0

abbrev points : Bool → ℕ → ℕ
points b n = if b then n else 0

unfoldable pub calculate_lead_score : Bool → List Message → ℕ → ℕ × Label
calculate_lead_score blacklisted messages now =
    let inbound = select (λ m. m.inbound) messages in
    let blob = text_blob inbound in
    if blacklisted
    then (0, cold)
    else if contains_any blob negative_keywords
    then (0, cold)
    else if length inbound == 0
    then (0, cold)
    else let score = min 100 (
        min 40 (length inbound * 8)
        + recency_points now (latest inbound)
        + points (contains_any blob purchase_keywords) 15
        + points (contains_any blob budget_keywords) 10
        + points (contains_any blob booking_keywords) 20) in
      (score, map_score_label score)
