-- ===== src/KbChunk.antt =====
-- app/services/kb/chunk.py: a text becomes chunks of bounded size. What the regular expressions of the
-- module find is a parameter: `paragraphs` is `re.split(r"\n\s*\n", ·)`, `heading` the level and the
-- title that `_HEADING` matches in a line, `sentences` is `_SENTENCE_END.split`, `sentence_end` the
-- end of what `_SENTENCE_END.search` finds, and `is_word` says which characters `\W` leaves.
pub mod Parts
pub mod Bounds
pub mod Lossless
mod Tests
use ai_wa_chat_agent_be.Prelude.{
  ℕ, zero, suc, ◌+◌, ◌-◌, ◌*◌, ◌/◌, Bool, true, false, not, ◌&&◌, ◌||◌, Option, none, some, List,
  [], ◌∷◌, ◌++◌, min, max, ltb, leb, ◌==◌, if◌then◌else◌, length, take, drop, select,
}
use ai_wa_chat_agent_be.Prelude.Text.{Text, codes, is_empty, text_eq, strip}

pub record Chunk : Type 0 where
  pub index : ℕ
  pub heading : Text
  pub text : Text

-- Where a long paragraph is split: the parts that are done, the part under way, and the sentence.
pub record Splitting : Type 0 where
  pub parts : List Text
  pub buf : Text
  pub sentence : Text

abbrev pub flush : List Text → Text → List Text
flush parts buf = if is_empty buf then parts else parts ++ buf ∷ []

-- `while len(sentence) > max_chars`
unfoldable pub hard_split : ℕ → ℕ → Splitting → Splitting
hard_split zero max_chars s = s
hard_split (suc fuel) max_chars s =
    let rest = hard_split fuel max_chars (record {
      parts = flush s.parts s.buf ++ take max_chars s.sentence ∷ [];
      buf = [];
      sentence = drop max_chars s.sentence;
    }) in
    if ltb max_chars (length s.sentence) then rest else s

-- One round of the loop over the sentences: the parts and the part under way after it.
unfoldable pub add_sentence : ℕ → List Text × Text → Text → List Text × Text
add_sentence max_chars (parts, buf) sentence =
    let s =
      hard_split (length sentence) max_chars
        (record { parts = parts; buf = buf; sentence = sentence }) in
    if not (is_empty s.buf) && ltb max_chars (length s.buf + 1 + length s.sentence)
    then (s.parts ++ s.buf ∷ [], s.sentence)
    else (s.parts, strip (s.buf ++ (b' ' ∷ s.sentence)))

unfoldable pub add_sentences : ℕ → List Text × Text → List Text → List Text × Text
add_sentences max_chars state [] = state
add_sentences max_chars state (s ∷ ss) = add_sentences max_chars (add_sentence max_chars state s) ss

-- `f"{a}\n\n{b}"`
abbrev pub two_lines : Text → Text → Text
two_lines a b = a ++ (codes "\n\n" ++ b)

-- `space = tail.find(" ")`, and what follows it, if anything is found
unfoldable pub after_space : Text → Option Text
after_space [] = none
after_space (c ∷ cs) = let rest = after_space cs in if c == b' ' then some cs else rest

-- `text.split("\n")`: the first line, and the others
unfoldable pub first_line : Text → Text
first_line [] = []
first_line (c ∷ cs) = let rest = first_line cs in if c == b'\n' then [] else c ∷ rest

-- `"\n".join(lines[1:])`
unfoldable pub other_lines : Text → Text
other_lines [] = []
other_lines (c ∷ cs) = let rest = other_lines cs in if c == b'\n' then cs else rest

-- `" > ".join(t for _, t in path)`
unfoldable pub join_path : List (ℕ × Text) → Text
join_path [] = []
join_path ((level, title) ∷ []) = title
join_path ((level, title) ∷ (l, t) ∷ path) = title ++ (codes " > " ++ join_path ((l, t) ∷ path))

pub record Sections : Type 0 where
  pub path : List (ℕ × Text)
  pub done : List (Text × List Text)
  pub title : Text  -- the last section
  pub paras : List Text

unfoldable pub embedding_input : Text → Chunk → Text
embedding_input doc_title c =
    let title = strip doc_title in
    let heading = strip c.heading in
    let head =
      if is_empty title
      then heading
      else if is_empty heading
      then title
      else title ++ (codes " — " ++ heading) in
    if is_empty head then c.text else two_lines head c.text

-- the number of a chunk is its place
unfoldable pub renumber : ℕ → List Chunk → List Chunk
renumber i [] = []
renumber i (c ∷ cs) = record c { index = i } ∷ renumber (suc i) cs

module _ (paragraphs sentences : Text → List Text) (heading : Text → Option (ℕ × Text))
    (sentence_end : Text → Option ℕ) (is_word : ℕ → Bool) where
  -- _split_long
  unfoldable pub split_long : Text → ℕ → List Text
  split_long paragraph max_chars =
      let (parts, buf) = add_sentences max_chars ([], []) (sentences paragraph) in
      if leb (length paragraph) max_chars then paragraph ∷ [] else flush parts buf

  -- _tail
  unfoldable pub tail_of : Text → ℕ → Text
  tail_of text size =
      let tail = drop (length text - size) text in
      let by_word : Text = elim (after_space tail) [ some rest ↦ rest | none ↦ tail ] in
      if size == 0 then [] else if leb (length text) size then text else elim (sentence_end tail) [
        | none ↦ by_word
        | some e ↦ if ltb e (length tail) then drop e tail else by_word
      ]

  -- one block of _sections
  unfoldable pub add_block : Sections → Text → Sections
  add_block s raw =
      let block = strip raw in
      if is_empty block then s else elim (heading (first_line block)) [
        | none ↦ record s { paras = s.paras ++ block ∷ [] }
        | some h ↦
            let title = strip h.1 in
            let path = select (λ p. ltb p.0 h.0) s.path ++ (h.0, title) ∷ [] in
            let rest = strip (other_lines block) in
            record {
              path = path;
              done = s.done ++ (s.title, s.paras) ∷ [];
              title = join_path path;
              paras = if is_empty rest then [] else rest ∷ [];
            }
      ]

  unfoldable pub add_blocks : Sections → List Text → Sections
  add_blocks s [] = s
  add_blocks s (b ∷ bs) = add_blocks (add_block s b) bs

  abbrev has_paras : Text × List Text → Bool
  has_paras (h, []) = false
  has_paras (h, p ∷ ps) = true

  -- _sections
  unfoldable pub sections : Text → List (Text × List Text)
  sections text =
      let s : Sections =
        add_blocks (record { path = []; done = []; title = []; paras = [] }) (paragraphs text) in
      select has_paras (s.done ++ (s.title, s.paras) ∷ [])

  unfoldable pub split_all : ℕ → List Text → List Text
  split_all max_chars [] = []
  split_all max_chars (p ∷ ps) = split_long p max_chars ++ split_all max_chars ps

  -- One round of the loop over the pieces of a section.
  unfoldable pub add_piece : ℕ → ℕ → ℕ → Text → List Chunk × Text → Text → List Chunk × Text
  add_piece target max_chars overlap h (chunks, buf) piece =
      let candidate = if is_empty buf then piece else two_lines buf piece in
      let carry = tail_of buf overlap in
      if not (is_empty buf) && ltb target (length candidate)
      then (
        chunks ++ record { index = length chunks; heading = h; text = buf } ∷ [],
        if not (is_empty carry) && leb (length carry + length piece + 2) max_chars
            then two_lines carry piece
            else piece,
      )
      else (chunks, candidate)

  unfoldable pub add_pieces : ℕ → ℕ → ℕ → Text → List Chunk × Text → List Text → List Chunk × Text
  add_pieces target max_chars overlap h state [] = state
  add_pieces target max_chars overlap h state (p ∷ ps) =
      add_pieces target max_chars overlap h (add_piece target max_chars overlap h state p) ps

  -- The loop over the sections.
  unfoldable pub add_sections : ℕ → ℕ → ℕ → List Chunk → List (Text × List Text) → List Chunk
  add_sections target max_chars overlap chunks [] = chunks
  add_sections target max_chars overlap chunks ((h, ps) ∷ rest) =
      let (more, buf) =
        add_pieces target max_chars overlap h (chunks, []) (split_all max_chars ps) in
      let closed =
        if is_empty (strip buf)
        then more
        else more ++ record { index = length more; heading = h; text = buf } ∷ [] in
      add_sections target max_chars overlap closed rest

  -- the loop of _merge_small; `prev` is the last of the chunks put out
  unfoldable pub merge_chunks : ℕ → ℕ → Chunk → List Chunk → List Chunk
  merge_chunks min_chars max_chars prev [] = prev ∷ []
  merge_chunks min_chars max_chars prev (c ∷ cs) =
      let small = ltb (length prev.text) min_chars || ltb (length c.text) min_chars in
      let body =
        if text_eq c.heading prev.heading || is_empty c.heading
        then c.text
        else c.heading ++ (b'\n' ∷ c.text) in
      let folded : Chunk = record {
        index = prev.index;
        heading = if is_empty prev.heading then c.heading else prev.heading;
        text = two_lines prev.text body;
      } in
      let as_one = merge_chunks min_chars max_chars folded cs in
      let apart = merge_chunks min_chars max_chars c cs in
      if small && leb (length prev.text + length body + 2) max_chars then as_one else prev ∷ apart

  abbrev pub or_all : List Chunk → List Chunk → List Chunk
  or_all [] all = all
  or_all (c ∷ cs) all = c ∷ cs

  -- Scraps of symbols are dropped, unless nothing else is left.
  unfoldable pub drop_scraps : List Chunk → List Chunk
  drop_scraps out =
      if ltb 1 (length out)
      then or_all (select (λ c. leb 3 (length (select is_word c.text))) out) out
      else out

  -- _merge_small
  unfoldable pub merge_small : List Chunk → ℕ → ℕ → List Chunk
  merge_small [] target max_chars = []
  merge_small (c ∷ cs) target max_chars =
      renumber 0 (drop_scraps (merge_chunks (max 200 (target / 3)) max_chars c cs))

  -- The settings stand for the arguments that are missing.
  unfoldable pub chunk_text : Text → ℕ → ℕ → ℕ → List Chunk
  chunk_text text target chars overlap =
      let max_chars = max target chars in
      merge_small (add_sections target max_chars (min overlap (target / 2)) [] (sections text))
        target max_chars
