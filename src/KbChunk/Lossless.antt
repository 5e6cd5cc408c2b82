-- ===== src/KbChunk/Lossless.antt =====
-- `_split_long` keeps everything but white space.
use mathlib.Core.List.{append_assoc, append-nil}
use ai_wa_chat_agent_be.Prelude.{
  ℕ, zero, suc, ◌+◌, ◌≡◌, refl, sym, ◌∙◌, ap, Bool, true, not, ◌&&◌, Option, List, [], ◌∷◌, ◌++◌,
  arith, inl, inr, ltb, leb, length, take, drop, select, Bool-cases,
}
use ai_wa_chat_agent_be.Prelude.Text.{Text, is_empty, is_space, strip, lstrip, rstrip}
use ai_wa_chat_agent_be.KbChunk.{
  Splitting, flush, hard_split, add_sentence, add_sentences, split_long,
}

-- what is not white space
abbrev pub ink : Text → Text
ink t = select (λ c. not (is_space c)) t

abbrev pub inks : List Text → Text
inks [] = []
inks (t ∷ ts) = ink t ++ inks ts

ink-append : (s t : Text) → ink (s ++ t) ≡ ink s ++ ink t
ink-append [] t = refl
ink-append (c ∷ s) t = ground (arith, ink-append s t)

inks-append : (ss ts : List Text) → inks (ss ++ ts) ≡ inks ss ++ inks ts
inks-append [] ts = refl
inks-append (s ∷ ss) ts =
    ap (λ u. ink s ++ u) (inks-append ss ts) ∙ sym (append_assoc (ink s) (inks ss) (inks ts))

ink-lstrip : (t : Text) → ink (lstrip t) ≡ ink t
unfolding lstrip
ink-lstrip [] = refl
ink-lstrip (c ∷ cs) = ground (arith, ink-lstrip cs)

ink-empty : (t : Text) → is_empty t ≡ true → ink t ≡ []
ink-empty [] h = refl
ink-empty (c ∷ cs) h = cc

ink-rstrip : (t : Text) → ink (rstrip t) ≡ ink t
unfolding rstrip
ink-rstrip [] = refl
ink-rstrip (c ∷ cs) = ground (arith, ink-rstrip cs, ink-empty (rstrip cs))

ink-strip : (t : Text) → ink (strip t) ≡ ink t
unfolding strip
ink-strip t = ink-rstrip (lstrip t) ∙ ink-lstrip t

ink-take-drop : (n : ℕ) (t : Text) → ink (take n t) ++ ink (drop n t) ≡ ink t
ink-take-drop zero t = refl
ink-take-drop (suc n) [] = refl
ink-take-drop (suc n) (c ∷ cs) = ground (arith, ink-take-drop n cs)

inks-flush : (parts : List Text) (buf : Text) → inks (flush parts buf) ≡ inks parts ++ ink buf
inks-flush parts [] = sym (append-nil (inks parts))
inks-flush parts (c ∷ cs) =
    inks-append parts ((c ∷ cs) ∷ []) ∙ ap (λ u. inks parts ++ u) (append-nil (ink (c ∷ cs)))

-- All that was read, in its order.
abbrev ink_of : Splitting → Text
ink_of s = inks s.parts ++ (ink s.buf ++ ink s.sentence)

hard_split-ink : (fuel n : ℕ) (s : Splitting) → ink_of (hard_split fuel n s) ≡ ink_of s
unfolding hard_split
hard_split-ink zero n s = refl
hard_split-ink (suc fuel) n s = elim (Bool-cases (ltb n (length s.sentence))) [
  | inl long ↦
      let next : Splitting = record {
        parts = flush s.parts s.buf ++ take n s.sentence ∷ [];
        buf = [];
        sentence = drop n s.sentence;
      } in
      rw (long, hard_split) (hard_split-ink fuel n next ∙ moved)
  | inr short ↦ rw (short, hard_split) refl
]
  where
    moved :
        inks (flush s.parts s.buf ++ take n s.sentence ∷ []) ++ ink (drop n s.sentence) ≡ ink_of s
    moved = simp (inks-append, inks-flush, append_assoc, append-nil, ink-take-drop n s.sentence)

ink-space : (s t : Text) → ink (strip (s ++ (b' ' ∷ t))) ≡ ink s ++ ink t
unfolding is_space
ink-space s t = ink-strip (s ++ (b' ' ∷ t)) ∙ ink-append s (b' ' ∷ t)

abbrev state_ink : List Text × Text → Text
state_ink p = inks p.0 ++ ink p.1

add_sentence-ink :
    (n : ℕ) (state : List Text × Text) (sentence : Text)
    → state_ink (add_sentence n state sentence) ≡ state_ink state ++ ink sentence
unfolding add_sentence
add_sentence-ink n (parts, buf) sentence =
    let s : Splitting = record { parts = parts; buf = buf; sentence = sentence } in
    let r = hard_split (length sentence) n s in
    let same = hard_split-ink (length sentence) n s in
    elim (Bool-cases (not (is_empty r.buf) && ltb n (length r.buf + 1 + length r.sentence))) [
      | inl full ↦ rw full (
          ap (λ u. u ++ ink r.sentence) (inks-append r.parts (r.buf ∷ []))
          ∙ simp (append_assoc, append-nil, same))
      | inr room ↦ rw room (
          ap (λ u. inks r.parts ++ u) (ink-space r.buf r.sentence)
          ∙ same
          ∙ sym (append_assoc (inks parts) (ink buf) (ink sentence)))
    ]

add_sentences-ink :
    (n : ℕ) (state : List Text × Text) (ss : List Text)
    → state_ink (add_sentences n state ss) ≡ state_ink state ++ inks ss
unfolding add_sentences
add_sentences-ink n state [] = sym (append-nil (state_ink state))
add_sentences-ink n state (s ∷ ss) =
    add_sentences-ink n (add_sentence n state s) ss
    ∙ ap (λ u. u ++ inks ss) (add_sentence-ink n state s)
    ∙ append_assoc (state_ink state) (ink s) (inks ss)

module _ (paragraphs sentences : Text → List Text) (heading : Text → Option (ℕ × Text))
    (sentence_end : Text → Option ℕ) (is_word : ℕ → Bool) where
  -- If splitting at the ends of sentences loses nothing but white space, then neither do the parts of
  -- a paragraph, whatever their size: in their order they hold every other character of it.
  pub split_long-ink :
      ((t : Text) → inks (sentences t) ≡ ink t)
      → (p : Text) (n : ℕ)
      → inks (split_long paragraphs sentences heading sentence_end is_word p n) ≡ ink p
  unfolding split_long
  split_long-ink keeps p n = elim (Bool-cases (leb (length p) n)) [
    | inl short ↦ rw short (append-nil (ink p))
    | inr long ↦
        let state = add_sentences n ([], []) (sentences p) in
        rw long (inks-flush state.0 state.1 ∙ add_sentences-ink n ([], []) (sentences p) ∙ keeps p)
  ]
