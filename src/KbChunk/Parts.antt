-- ===== src/KbChunk/Parts.antt =====
-- `_split_long`: the parts of a paragraph are short.
use ai_wa_chat_agent_be.Prelude.{
  ℕ, zero, suc, ◌+◌, ◌-◌, ◌≤◌, ◌<◌, ◌≡◌, not, ◌&&◌, List, [], ◌∷◌, ◌++◌, arith, inl, inr, ltb,
  length, take, drop, if◌then◌else◌, All, Bool-cases, length-append,
}
use ai_wa_chat_agent_be.Prelude.Text.{Text, is_empty, is_space, strip, lstrip, rstrip}
use ai_wa_chat_agent_be.KbChunk.{Splitting, flush, hard_split, add_sentence, add_sentences}

-- At most so many characters.
abbrev pub IsShort : ℕ → Text → Type 0
IsShort n t = length t ≤ n

abbrev pub AllShort : ℕ → List Text → Type 0
AllShort n ts = All (IsShort n) ts

module _ {ℓ} {A : Type ℓ} where
  pub length-take_le : (n : ℕ) (xs : List A) → length (take n xs) ≤ n
  length-take_le zero xs = omega arith
  length-take_le (suc n) [] = omega arith
  length-take_le (suc n) (x ∷ xs) = omega (arith, length-take_le n xs)

  pub length-drop : (n : ℕ) (xs : List A) → length (drop n xs) ≡ length xs - n
  length-drop zero xs = omega arith
  length-drop (suc n) [] = omega arith
  length-drop (suc n) (x ∷ xs) = omega (arith, length-drop n xs)

  pub All-append {κ} : (P : A → Type κ) (xs ys : List A) → All P xs → All P ys → All P (xs ++ ys)
  All-append P [] ys hx hy = hy
  All-append P (x ∷ xs) ys (h, hx) hy = (h, All-append P xs ys hx hy)

length-lstrip_le : (t : Text) → length (lstrip t) ≤ length t
unfolding lstrip
length-lstrip_le [] = omega arith
length-lstrip_le (c ∷ cs) = ground (arith, length-lstrip_le cs)

length-rstrip_le : (t : Text) → length (rstrip t) ≤ length t
unfolding rstrip
length-rstrip_le [] = omega arith
length-rstrip_le (c ∷ cs) = ground (arith, length-rstrip_le cs)

length-strip_le : (t : Text) → length (strip t) ≤ length t
unfolding strip
length-strip_le t = omega (arith, length-rstrip_le (lstrip t), length-lstrip_le t)

-- A space in front does not count.
length-strip-space_le : (t : Text) → length (strip (b' ' ∷ t)) ≤ length t
unfolding strip lstrip is_space
length-strip-space_le t = omega (arith, length-rstrip_le (lstrip t), length-lstrip_le t)

pub flush-AllShort :
    (n : ℕ) (parts : List Text) (buf : Text)
    → AllShort n parts
    → IsShort n buf
    → AllShort n (flush parts buf)
flush-AllShort n parts [] h b = h
flush-AllShort n parts (c ∷ cs) h b = All-append (IsShort n) parts ((c ∷ cs) ∷ []) h (b, tt)

-- The parts are short, and so is the part under way.
abbrev pub AreShort : ℕ → List Text × Text → Type 0
AreShort n state = AllShort n state.0 × IsShort n state.1

-- The loop ends: each round takes a full part off the sentence.
hard_split-IsShort :
    (n fuel : ℕ) (s : Splitting)
    → 0 < n
    → length s.sentence ≤ fuel
    → AllShort n s.parts
    → IsShort n s.buf
    → let r = hard_split fuel n s in AllShort n r.parts × IsShort n r.buf × IsShort n r.sentence
unfolding hard_split
hard_split-IsShort n zero s pos enough parts buf = (parts, buf, omega arith)
hard_split-IsShort n (suc fuel) s pos enough parts buf =
    elim (Bool-cases (ltb n (length s.sentence))) [
      | inl long ↦
          rw (long, hard_split)
            (hard_split-IsShort n fuel
              (record {
                parts = flush s.parts s.buf ++ take n s.sentence ∷ [];
                buf = [];
                sentence = drop n s.sentence;
              })
              pos (ground (arith, long, length-drop n s.sentence))
              (All-append (IsShort n) (flush s.parts s.buf) (take n s.sentence ∷ [])
                (flush-AllShort n s.parts s.buf parts buf) (length-take_le n s.sentence, tt))
              (omega arith))
      | inr short ↦ rw (short, hard_split) (parts, buf, ground (arith, short))
    ]

add_sentence-AreShort :
    (n : ℕ) (state : List Text × Text) (sentence : Text)
    → 0 < n
    → AreShort n state
    → AreShort n (add_sentence n state sentence)
unfolding add_sentence
add_sentence-AreShort n (parts, buf) sentence pos (hp, hb) =
    let s : Splitting = record { parts = parts; buf = buf; sentence = sentence } in
    let (rp, rb, rs) = hard_split-IsShort n (length sentence) s pos (omega arith) hp hb in
    go (hard_split (length sentence) n s) rp rb rs
  where
    go :
        (r : Splitting)
        → AllShort n r.parts
        → IsShort n r.buf
        → IsShort n r.sentence
        → AreShort n (
            if not (is_empty r.buf) && ltb n (length r.buf + 1 + length r.sentence)
            then (r.parts ++ r.buf ∷ [], r.sentence)
            else (r.parts, strip (r.buf ++ (b' ' ∷ r.sentence))))
    go r rp rb rs = fits r.buf rb
      where
        fits :
            (buf : Text)
            → IsShort n buf
            → AreShort n (
                if not (is_empty buf) && ltb n (length buf + 1 + length r.sentence)
                then (r.parts ++ buf ∷ [], r.sentence)
                else (r.parts, strip (buf ++ (b' ' ∷ r.sentence))))
        fits [] rb = (rp, omega (arith, length-strip-space_le r.sentence))
        fits (c ∷ cs) rb = elim (Bool-cases (ltb n (length (c ∷ cs) + 1 + length r.sentence))) [
          | inl full ↦ rw full (All-append (IsShort n) r.parts ((c ∷ cs) ∷ []) rp (rb, tt), rs)
          | inr room ↦ rw room (
            rp,
            ground (
              arith,
              room,
              length-strip_le ((c ∷ cs) ++ (b' ' ∷ r.sentence)),
              length-append (c ∷ cs) (b' ' ∷ r.sentence),
            ),
          )
        ]

pub add_sentences-AreShort :
    (n : ℕ) (state : List Text × Text) (ss : List Text)
    → 0 < n
    → AreShort n state
    → AreShort n (add_sentences n state ss)
unfolding add_sentences
add_sentences-AreShort n state [] pos h = h
add_sentences-AreShort n state (s ∷ ss) pos h =
    add_sentences-AreShort n (add_sentence n state s) ss pos (add_sentence-AreShort n state s pos h)
