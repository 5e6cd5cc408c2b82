-- ===== src/AiContext.antt =====
-- app/services/ai_context.py: which messages of a conversation the assistant is given. `text` is what
-- _msg_text makes of a message; a time is in seconds. The first customer message, the estimate of the
-- tokens and the summary are not modelled.
pub mod Budget
mod Tests
use ai_wa_chat_agent_be.Prelude.{
  ℕ, zero, suc, ◌+◌, ◌-◌, Bool, true, false, not, ◌&&◌, ◌||◌, Option, none, some, List, [], ◌∷◌,
  ◌++◌, if◌then◌else◌, ltb, ◌==◌, length, drop, select, max, min, is_some,
}
use ai_wa_chat_agent_be.Prelude.Text.{Text, codes, is_empty, is_one_of, or_text}
use mathlib.Core.List.{reverse}

pub record Message : Type 0 where
  pub id : ℕ
  pub inbound : Bool
  pub campaign_id : Option ℕ
  pub blast_id : Option ℕ
  pub message_purpose : Option Text
  pub created_at : Option ℕ
  pub text : Text

-- BUSINESS_INITIATED_PURPOSES
abbrev business_purposes : List Text
business_purposes = codes "campaign" ∷ codes "marketing" ∷ codes "transactional" ∷ []

unfoldable pub is_business_initiated : Message → Bool
is_business_initiated m =
    not m.inbound
    && (is_some m.campaign_id
        || is_some m.blast_id
        || is_one_of (or_text m.message_purpose []) business_purposes)

-- `t_new - t_old > gap`, where both times are known
unfoldable pub is_gap : ℕ → Option ℕ → Option ℕ → Bool
is_gap gap (some t_new) (some t_old) = ltb (t_old + gap) t_new
is_gap gap _ _ = false

-- the loop over the pairs, from the newest message on
unfoldable pub session_from : ℕ → List Message → List Message
session_from gap [] = []
session_from gap (m ∷ []) = m ∷ []
session_from gap (newer ∷ older ∷ rest) =
    let whole = session_from gap (older ∷ rest) in
    if is_gap gap newer.created_at older.created_at
    then if newer.inbound && is_business_initiated older then newer ∷ older ∷ [] else newer ∷ []
    else newer ∷ whole

-- current_session, oldest first; no gap is 0
unfoldable pub current_session : ℕ → List Message → List Message
current_session gap raw = if gap == 0 then raw else reverse (session_from gap (reverse raw))

-- what an entry takes of the budget
abbrev pub entry_size : Message → ℕ
entry_size m = length m.text + 16

-- The loop that keeps the entries, with what is kept, its size, and whether any was left out.
unfoldable pub keep_entries : ℕ → List Message → List Message → ℕ → Bool → List Message × ℕ × Bool
keep_entries max_chars [] messages chars truncated = (messages, chars, truncated)
keep_entries max_chars (m ∷ raw) messages chars truncated =
    let skipped = keep_entries max_chars raw messages chars truncated in
    let left_out = keep_entries max_chars raw messages chars true in
    let kept = keep_entries max_chars raw (messages ++ m ∷ []) (chars + entry_size m) truncated in
    if is_empty m.text
    then skipped
    else if ltb 0 (length messages) && ltb max_chars (chars + entry_size m)
    then left_out
    else kept

-- `messages[-limit:]`
abbrev pub last_of : ℕ → List Message → List Message
last_of limit messages = drop (length messages - limit) messages

-- The messages of load_conversation_context, of those that the query found, oldest first.
unfoldable pub load_messages : ℕ → ℕ → ℕ → List Message → List Message
load_messages limit max_chars gap raw =
    let (messages, chars, truncated) =
      keep_entries (max 500 max_chars) (current_session gap raw) [] 0 false in
    last_of (max 1 (min 50 limit)) messages
