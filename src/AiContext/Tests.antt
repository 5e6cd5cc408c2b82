-- ===== src/AiContext/Tests.antt =====
-- A long message, and the question that follows it.
use ai_wa_chat_agent_be.Prelude.{
  ℕ, zero, suc, ◌≤◌, ◌≡◌, ◌⊎◌, refl, Bool, true, false, none, some, List, [], ◌∷◌, ◌++◌, arith, max,
  min, length,
}
use ai_wa_chat_agent_be.Prelude.Text.{Text, codes}
use ai_wa_chat_agent_be.AiContext.{
  Message, is_gap, session_from, current_session, keep_entries, last_of, load_messages,
}
use ai_wa_chat_agent_be.AiContext.Budget.{entries, total, load_messages-newest}

abbrev message : ℕ → Bool → ℕ → Text → Message
message id inbound at text = record {
  id = id;
  inbound = inbound;
  campaign_id = none;
  blast_id = none;
  message_purpose = none;
  created_at = some at;
  text = text;
}

abbrev repeated : ℕ → Text
repeated zero = []
repeated (suc k) = b'a' ∷ repeated k

abbrev long_reply : Message
long_reply = message 1 false 5 (repeated 480)

abbrev question : Message
question = message 2 true 6 (codes "And the price?")

abbrev raw : List Message
raw = long_reply ∷ question ∷ []

one_session : current_session 3600 raw ≡ (long_reply ∷ []) ++ question ∷ []
unfolding current_session session_from is_gap
one_session = refl

load_messages-newest_example :
    (load_messages 20 500 3600 raw ≡ last_of (max 1 (min 50 20)) (entries 500 (long_reply ∷ [])))
    × (length (load_messages 20 500 3600 raw) ≤ max 1 (min 50 20))
    × ((total (entries 500 (long_reply ∷ [])) ≤ max 500 500)
        ⊎ (length (entries 500 (long_reply ∷ [])) ≤ 1))
unfolding keep_entries
load_messages-newest_example =
    load_messages-newest 20 500 3600 raw (long_reply ∷ []) question one_session refl (omega arith)
      (omega arith)
