-- ===== src/KbChunk/Tests.antt =====
-- Chunks of small texts, where a sentence ends at a full stop and a space.
use ai_wa_chat_agent_be.Prelude.{
  ℕ, ◌≡◌, refl, Bool, false, ◌&&◌, Option, none, List, [], ◌∷◌, arith, leb, if◌then◌else◌,
  Bool-cases, inl, inr, ap,
}
use ai_wa_chat_agent_be.Prelude.Text.{Text, codes, is_space, strip, lstrip, rstrip}
use ai_wa_chat_agent_be.KbChunk.{hard_split, add_sentence, add_sentences, split_long, chunk_text}
use ai_wa_chat_agent_be.KbChunk.Bounds.{AllChunksShort, IsNumbered, chunk_text-AllChunksShort}
use ai_wa_chat_agent_be.KbChunk.Lossless.{ink, inks, split_long-ink}

abbrev onto : ℕ → List Text → List Text
onto c [] = (c ∷ []) ∷ []
onto c (t ∷ ts) = (c ∷ t) ∷ ts

-- the text in front of each space, and what follows the last
abbrev words : Text → List Text
words [] = [] ∷ []
words (c ∷ cs) = let rest = words cs in if is_space c then [] ∷ rest else onto c rest

inks-onto : (c : ℕ) (ts : List Text) → is_space c ≡ false → inks (onto c ts) ≡ c ∷ inks ts
inks-onto c [] h = rw h refl
inks-onto c (t ∷ ts) h = rw h refl

words-ink : (t : Text) → inks (words t) ≡ ink t
words-ink [] = refl
words-ink (c ∷ cs) = elim (Bool-cases (is_space c)) [
  | inl blank ↦ rw blank (words-ink cs)
  | inr dark ↦ rw (dark, inks-onto c (words cs) dark) (ap (λ u. c ∷ u) (words-ink cs))
]

abbrev no_heading : Text → Option (ℕ × Text)
no_heading t = none

abbrev no_end : Text → Option ℕ
no_end t = none

abbrev letter : ℕ → Bool
letter c = leb b'a' c && leb c b'z'

abbrev prose : Text
prose = codes "the quick brown fox is unmistakably quick"

-- A word that is too long is cut.
split_long_test :
    split_long words words no_heading no_end letter prose 10
    ≡ codes "the quick"
      ∷ codes "brown fox"
      ∷ codes "is"
      ∷ codes "unmistakab"
      ∷ codes "ly quick"
      ∷ []
unfolding split_long add_sentences add_sentence hard_split strip lstrip rstrip is_space
split_long_test = refl

split_long-ink_example : inks (split_long words words no_heading no_end letter prose 10) ≡ ink prose
split_long-ink_example = split_long-ink words words no_heading no_end letter words-ink prose 10

chunk_text-AllChunksShort_example :
    let cs = chunk_text words words no_heading no_end letter prose 8 12 3 in
    AllChunksShort 12 cs × IsNumbered 0 cs
chunk_text-AllChunksShort_example =
    chunk_text-AllChunksShort words words no_heading no_end letter prose 8 12 3 (omega arith)
