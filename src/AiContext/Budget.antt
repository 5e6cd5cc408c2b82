-- ===== src/AiContext/Budget.antt =====
-- What the budget of characters keeps and what it leaves out.
use ai_wa_chat_agent_be.Prelude.{
  ℕ, zero, suc, ◌+◌, ◌-◌, ◌≤◌, ◌<◌, ◌≡◌, refl, ap, ◌∙◌, ◌⊎◌, inl, inr, Bool, true, false, ◌&&◌,
  List, [], ◌∷◌, ◌++◌, arith, ltb, Bool-cases, length, length-append, drop, max, min,
}
use ai_wa_chat_agent_be.Prelude.Text.{is_empty}
use ai_wa_chat_agent_be.AiContext.{
  Message, entry_size, keep_entries, last_of, current_session, load_messages,
}

-- What is kept of the messages by themselves, and its size.
abbrev pub entries : ℕ → List Message → List Message
entries max_chars ms = (keep_entries (max 500 max_chars) ms [] 0 false).0

abbrev pub entries_size : ℕ → List Message → ℕ
entries_size max_chars ms = (keep_entries (max 500 max_chars) ms [] 0 false).1

-- The size of what is kept.
abbrev pub total : List Message → ℕ
total [] = 0
total (m ∷ ms) = entry_size m + total ms

total-append : (xs ys : List Message) → total (xs ++ ys) ≡ total xs + total ys
total-append [] ys = omega arith
total-append (x ∷ xs) ys = omega (arith, total-append xs ys)

-- Within the budget, or a single entry.
abbrev IsWithin : ℕ → List Message → Type 0
IsWithin max_chars ms = (total ms ≤ max_chars) ⊎ (length ms ≤ 1)

keep_entries-IsWithin :
    (max_chars : ℕ) (raw messages : List Message) (chars : ℕ) (truncated : Bool)
    → chars ≡ total messages
    → IsWithin max_chars messages
    → IsWithin max_chars (keep_entries max_chars raw messages chars truncated).0
unfolding keep_entries
keep_entries-IsWithin max_chars [] messages chars truncated e h = h
keep_entries-IsWithin max_chars (m ∷ raw) messages chars truncated e h =
    elim (Bool-cases (is_empty m.text)) [
      | inl blank ↦ rw blank (keep_entries-IsWithin max_chars raw messages chars truncated e h)
      | inr said ↦
          elim (Bool-cases (ltb 0 (length messages) && ltb max_chars (chars + entry_size m))) [
            | inl full ↦
                rw (said, full) (keep_entries-IsWithin max_chars raw messages chars true e h)
            | inr room ↦
                rw (said, room)
                  (keep_entries-IsWithin max_chars raw (messages ++ m ∷ []) (chars + entry_size m)
                    truncated (omega (arith, e, total-append messages (m ∷ [])))
                    (ground (
                      arith,
                      room,
                      e,
                      total-append messages (m ∷ []),
                      length-append messages (m ∷ []),
                    )))
          ]
    ]

keep_entries-append :
    (max_chars : ℕ) (xs ys messages : List Message) (chars : ℕ) (truncated : Bool)
    → let (kept, used, cut) = keep_entries max_chars xs messages chars truncated in
      keep_entries max_chars (xs ++ ys) messages chars truncated
      ≡ keep_entries max_chars ys kept used cut
unfolding keep_entries
keep_entries-append max_chars [] ys messages chars truncated = refl
keep_entries-append max_chars (m ∷ xs) ys messages chars truncated =
    elim (Bool-cases (is_empty m.text)) [
      | inl blank ↦ rw blank (keep_entries-append max_chars xs ys messages chars truncated)
      | inr said ↦
          elim (Bool-cases (ltb 0 (length messages) && ltb max_chars (chars + entry_size m))) [
            | inl full ↦ rw (said, full) (keep_entries-append max_chars xs ys messages chars true)
            | inr room ↦
                rw (said, room)
                  (keep_entries-append max_chars xs ys (messages ++ m ∷ []) (chars + entry_size m)
                    truncated)
          ]
    ]

keep_entries-full :
    (max_chars : ℕ) (newest : Message) (kept : List Message) (used : ℕ) (cut : Bool)
    → is_empty newest.text ≡ false
    → 0 < length kept
    → max_chars < used + entry_size newest
    → (keep_entries max_chars (newest ∷ []) kept used cut).0 ≡ kept
unfolding keep_entries
keep_entries-full max_chars newest kept used cut said some_kept over =
    let full : (ltb 0 (length kept) && ltb max_chars (used + entry_size newest)) ≡ true =
      ground arith in
    rw (said, full) refl

length-drop : (n : ℕ) (ms : List Message) → length (drop n ms) ≡ length ms - n
length-drop zero ms = omega arith
length-drop (suc n) [] = omega arith
length-drop (suc n) (m ∷ ms) = omega (arith, length-drop n ms)

-- A session whose older messages leave no room for the newest one, the one to be answered: the
-- assistant is given what it would be given without the newest, no more messages than the limit, and
-- of a total size within the budget or a single one before the limit is applied.
pub load_messages-newest :
    (limit max_chars gap : ℕ) (raw older : List Message) (newest : Message)
    → current_session gap raw ≡ older ++ newest ∷ []
    → is_empty newest.text ≡ false
    → 0 < length (entries max_chars older)
    → max 500 max_chars < entries_size max_chars older + entry_size newest
    → (load_messages limit max_chars gap raw
        ≡ last_of (max 1 (min 50 limit)) (entries max_chars older))
      × (length (load_messages limit max_chars gap raw) ≤ max 1 (min 50 limit))
      × ((total (entries max_chars older) ≤ max 500 max_chars)
          ⊎ (length (entries max_chars older) ≤ 1))
unfolding load_messages
load_messages-newest limit max_chars gap raw older newest session said some_kept over =
    let b = max 500 max_chars in
    let without : (keep_entries b (older ++ newest ∷ []) [] 0 false).0 ≡ entries max_chars older =
      ap (λ r. r.0) (keep_entries-append b older (newest ∷ []) [] 0 false)
      ∙ keep_entries-full b newest _ _ _ said some_kept over in
    rw session (
      ap (last_of (max 1 (min 50 limit))) without,
      omega (arith, length-drop _ (keep_entries b (older ++ newest ∷ []) [] 0 false).0),
      keep_entries-IsWithin b older [] 0 false refl (inl (omega arith)),
    )
