-- ===== src/KbChunk/Bounds.antt =====
-- The size of the chunks that app/services/kb/chunk.py makes.
use ai_wa_chat_agent_be.Prelude.{
  ℕ, suc, ◌+◌, ◌/◌, ◌≤◌, ◌<◌, ◌≡◌, refl, Bool, not, ◌&&◌, ◌||◌, Option, List, [], ◌∷◌, ◌++◌, arith,
  inl, inr, min, max, ltb, leb, length, select, if◌then◌else◌, All, Bool-cases, length-append,
}
use ai_wa_chat_agent_be.Prelude.Text.{Text, is_empty, strip, text_eq}
use ai_wa_chat_agent_be.KbChunk.{
  Chunk, add_sentences, two_lines, renumber, split_long, tail_of, split_all, add_piece, add_pieces,
  add_sections, sections, merge_chunks, or_all, drop_scraps, merge_small, chunk_text,
}
use ai_wa_chat_agent_be.KbChunk.Parts.{
  IsShort, AllShort, All-append, flush-AllShort, add_sentences-AreShort,
}

abbrev pub AllChunksShort : ℕ → List Chunk → Type 0
AllChunksShort n cs = All (λ c. IsShort n c.text) cs

All-select {ℓ κ} :
    {A : Type ℓ} (P : A → Type κ) (p : A → Bool) (xs : List A) → All P xs → All P (select p xs)
All-select P p [] h = h
All-select P p (x ∷ xs) (hx, hs) = ground (arith, hx, All-select P p xs hs)

length-two_lines : (a b : Text) → length (two_lines a b) ≡ length a + length b + 2
length-two_lines a b = omega (arith, length-append a (b'\n' ∷ b'\n' ∷ b))

renumber-AllChunksShort :
    (n i : ℕ) (cs : List Chunk) → AllChunksShort n cs → AllChunksShort n (renumber i cs)
unfolding renumber
renumber-AllChunksShort n i [] h = h
renumber-AllChunksShort n i (c ∷ cs) (hc, hs) = (hc, renumber-AllChunksShort n (suc i) cs hs)

abbrev pub IsNumbered : ℕ → List Chunk → Type 0
IsNumbered i [] = Unit {0}
IsNumbered i (c ∷ cs) = (c.index ≡ i) × IsNumbered (suc i) cs

renumber-IsNumbered : (i : ℕ) (cs : List Chunk) → IsNumbered i (renumber i cs)
unfolding renumber
renumber-IsNumbered i [] = tt
renumber-IsNumbered i (c ∷ cs) = (refl, renumber-IsNumbered (suc i) cs)

module _ (paragraphs sentences : Text → List Text) (heading : Text → Option (ℕ × Text))
    (sentence_end : Text → Option ℕ) (is_word : ℕ → Bool) where
  split_long-AllShort :
      (n : ℕ) (p : Text)
      → 0 < n
      → AllShort n (split_long paragraphs sentences heading sentence_end is_word p n)
  unfolding split_long
  split_long-AllShort n p pos = elim (Bool-cases (leb (length p) n)) [
    | inl short ↦ rw short (ground (arith, short), tt)
    | inr long ↦
        let (hp, hb) = add_sentences-AreShort n ([], []) (sentences p) pos (tt, omega arith) in
        let (parts, buf) = add_sentences n ([], []) (sentences p) in
        rw long (flush-AllShort n parts buf hp hb)
  ]

  split_all-AllShort :
      (n : ℕ) (ps : List Text)
      → 0 < n
      → AllShort n (split_all paragraphs sentences heading sentence_end is_word n ps)
  unfolding split_all
  split_all-AllShort n [] pos = tt
  split_all-AllShort n (p ∷ ps) pos =
      All-append (IsShort n) (split_long paragraphs sentences heading sentence_end is_word p n)
        (split_all paragraphs sentences heading sentence_end is_word n ps)
        (split_long-AllShort n p pos) (split_all-AllShort n ps pos)

  abbrev PackShort : ℕ → List Chunk × Text → Type 0
  PackShort n state = AllChunksShort n state.0 × IsShort n state.1

  add_piece-PackShort :
      (target n overlap : ℕ) (h : Text) (state : List Chunk × Text) (piece : Text)
      → target ≤ n
      → PackShort n state
      → IsShort n piece
      → PackShort n (
          add_piece paragraphs sentences heading sentence_end is_word target n overlap h state
            piece)
  unfolding add_piece
  add_piece-PackShort target n overlap h (chunks, []) piece le (hc, hb) hp = (hc, hp)
  add_piece-PackShort target n overlap h (chunks, b ∷ bs) piece le (hc, hb) hp =
      let buf : Text = b ∷ bs in
      let carry = tail_of paragraphs sentences heading sentence_end is_word buf overlap in
      elim (Bool-cases (ltb target (length (two_lines buf piece)))) [
        | inr room ↦ rw (room, add_piece) (hc, ground (arith, room))
        | inl full ↦
            let more =
              All-append (λ (c : Chunk). IsShort n c.text) chunks
                (record { index = length chunks; heading = h; text = buf } ∷ []) hc (hb, tt) in
            elim (Bool-cases (not (is_empty carry) && leb (length carry + length piece + 2) n)) [
              | inl fits ↦
                  rw (full, fits, add_piece)
                    (more, ground (arith, fits, length-two_lines carry piece))
              | inr big ↦ rw (full, big, add_piece) (more, hp)
            ]
      ]

  add_pieces-PackShort :
      (target n overlap : ℕ) (h : Text) (state : List Chunk × Text) (ps : List Text)
      → target ≤ n
      → PackShort n state
      → AllShort n ps
      → PackShort n
          (add_pieces paragraphs sentences heading sentence_end is_word target n overlap h state ps)
  unfolding add_pieces
  add_pieces-PackShort target n overlap h state [] le s hs = s
  add_pieces-PackShort target n overlap h state (p ∷ ps) le s (hp, hs) =
      add_pieces-PackShort target n overlap h
        (add_piece paragraphs sentences heading sentence_end is_word target n overlap h state p) ps
        le (add_piece-PackShort target n overlap h state p le s hp) hs

  add_sections-AllChunksShort :
      (target n overlap : ℕ) (chunks : List Chunk) (ss : List (Text × List Text))
      → 0 < n
      → target ≤ n
      → AllChunksShort n chunks
      → AllChunksShort n (
          add_sections paragraphs sentences heading sentence_end is_word target n overlap chunks ss)
  unfolding add_sections
  add_sections-AllChunksShort target n overlap chunks [] pos le hc = hc
  add_sections-AllChunksShort target n overlap chunks ((h, ps) ∷ rest) pos le hc =
      let pieces = split_all paragraphs sentences heading sentence_end is_word n ps in
      let (more, buf) =
        add_pieces paragraphs sentences heading sentence_end is_word target n overlap h (chunks, [])
          pieces in
      let (hm, hb) =
        add_pieces-PackShort target n overlap h (chunks, []) pieces le (hc, omega arith)
          (split_all-AllShort n ps pos) in
      elim (Bool-cases (is_empty (strip buf))) [
        | inl blank ↦ rw blank (add_sections-AllChunksShort target n overlap more rest pos le hm)
        | inr ink ↦ rw ink (
            add_sections-AllChunksShort target n overlap
              (more ++ record { index = length more; heading = h; text = buf } ∷ []) rest pos le
              (All-append (λ (c : Chunk). IsShort n c.text) more
                (record { index = length more; heading = h; text = buf } ∷ []) hm (hb, tt)))
      ]

  merge_chunks-AllChunksShort :
      (min_chars n : ℕ) (prev : Chunk) (cs : List Chunk)
      → IsShort n prev.text
      → AllChunksShort n cs
      → AllChunksShort n
          (merge_chunks paragraphs sentences heading sentence_end is_word min_chars n prev cs)
  unfolding merge_chunks
  merge_chunks-AllChunksShort min_chars n prev [] hp hs = (hp, tt)
  merge_chunks-AllChunksShort min_chars n prev (c ∷ cs) hp (hc, hs) =
      let body : Text =
        if text_eq c.heading prev.heading || is_empty c.heading
        then c.text
        else c.heading ++ (b'\n' ∷ c.text) in
      let folded : Chunk = record {
        index = prev.index;
        heading = if is_empty prev.heading then c.heading else prev.heading;
        text = two_lines prev.text body;
      } in
      elim (Bool-cases (
        (ltb (length prev.text) min_chars || ltb (length c.text) min_chars)
        && leb (length prev.text + length body + 2) n)) [
          | inl fold ↦
              let short : IsShort n folded.text =
                ground (arith, fold, length-two_lines prev.text body) in
              rw (fold, merge_chunks) (merge_chunks-AllChunksShort min_chars n folded cs short hs)
          | inr keep ↦
              rw (keep, merge_chunks) (hp, merge_chunks-AllChunksShort min_chars n c cs hc hs)
        ]

  or_all-AllChunksShort :
      (n : ℕ) (some_chunks all : List Chunk)
      → AllChunksShort n some_chunks
      → AllChunksShort n all
      → AllChunksShort n (or_all paragraphs sentences heading sentence_end is_word some_chunks all)
  or_all-AllChunksShort n [] all hs ha = ha
  or_all-AllChunksShort n (c ∷ cs) all hs ha = hs

  drop_scraps-AllChunksShort :
      (n : ℕ) (cs : List Chunk)
      → AllChunksShort n cs
      → AllChunksShort n (drop_scraps paragraphs sentences heading sentence_end is_word cs)
  unfolding drop_scraps
  drop_scraps-AllChunksShort n cs h = elim (Bool-cases (ltb 1 (length cs))) [
    | inl several ↦
        let words : Chunk → Bool = λ c. leb 3 (length (select is_word c.text)) in
        rw several (
          or_all-AllChunksShort n (select words cs) cs
            (All-select (λ (c : Chunk). IsShort n c.text) words cs h) h)
    | inr one ↦ rw one h
  ]

  merge_small-AllChunksShort :
      (target n : ℕ) (cs : List Chunk)
      → AllChunksShort n cs
      → AllChunksShort n (merge_small paragraphs sentences heading sentence_end is_word cs target n)
  unfolding merge_small
  merge_small-AllChunksShort target n [] h = tt
  merge_small-AllChunksShort target n (c ∷ cs) (hc, hs) = renumber-AllChunksShort n 0 _ (
      drop_scraps-AllChunksShort n _
        (merge_chunks-AllChunksShort (max 200 (target / 3)) n c cs hc hs))

  merge_small-IsNumbered :
      (target n : ℕ) (cs : List Chunk)
      → IsNumbered 0 (merge_small paragraphs sentences heading sentence_end is_word cs target n)
  unfolding merge_small
  merge_small-IsNumbered target n [] = tt
  merge_small-IsNumbered target n (c ∷ cs) = renumber-IsNumbered 0 _

  -- Whatever the text is and wherever the regular expressions match, no chunk is longer than the
  -- larger of the target and the greatest size, if that is not zero, and the chunks are numbered from
  -- zero in their order.
  pub chunk_text-AllChunksShort :
      (text : Text) (target chars overlap : ℕ)
      → 0 < max target chars
      → let cs =
          chunk_text paragraphs sentences heading sentence_end is_word text target chars overlap in
        AllChunksShort (max target chars) cs × IsNumbered 0 cs
  unfolding chunk_text
  chunk_text-AllChunksShort text target chars overlap pos =
      let n = max target chars in
      let cs =
        add_sections paragraphs sentences heading sentence_end is_word target n
          (min overlap (target / 2)) []
          (sections paragraphs sentences heading sentence_end is_word text) in
      (
        merge_small-AllChunksShort target n cs (
            add_sections-AllChunksShort target n (min overlap (target / 2)) []
              (sections paragraphs sentences heading sentence_end is_word text) pos (omega arith)
              tt),
        merge_small-IsNumbered target n cs,
      )
