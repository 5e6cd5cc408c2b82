-- ===== src/KbCrawl/Frontier.antt =====
-- The addresses that a crawl knows.
use mathlib.Core.List.{append_assoc}
use ai_wa_chat_agent_be.Prelude.{
  ℕ, ◌≤◌, ◌≡◌, refl, ◌∙◌, sym, ap, inl, inr, true, false, not, ◌&&◌, ◌||◌, List, [], ◌∷◌, ◌++◌,
  arith, ltb, Bool-cases, All, length, length-append,
}
use ai_wa_chat_agent_be.Prelude.Text.{Text, text_eq, text_eq_refl, eq_of_text_eq, is_one_of}
use ai_wa_chat_agent_be.KbCrawl.Slice.{CrawlState, frontier_cap, visit}

-- No text stands twice.
abbrev pub Distinct : List Text → Type 0
Distinct [] = Unit
Distinct (x ∷ xs) = (is_one_of x xs ≡ false) × Distinct xs

is_one_of-append :
    (t : Text) (us vs : List Text) → is_one_of t (us ++ vs) ≡ is_one_of t us || is_one_of t vs
unfolding is_one_of
is_one_of-append t [] vs = refl
is_one_of-append t (u ∷ us) vs = ground (arith, is_one_of-append t us vs)

abbrev pub Known : List Text → List Text → Type 0
Known seen xs = All (λ x. is_one_of x seen ≡ true) xs

known_apart :
    (seen : List Text) (x u : Text)
    → is_one_of x seen ≡ true
    → is_one_of u seen ≡ false
    → text_eq x u ≡ false
known_apart seen x u k n = elim (Bool-cases (text_eq x u)) [
  | inl y ↦ let known : is_one_of u seen ≡ true = rw (← eq_of_text_eq x u y) k in cc
  | inr other ↦ other
]

-- A text that is not known, after texts that are.
Distinct-snoc :
    (seen xs : List Text) (u : Text)
    → Distinct xs
    → Known seen xs
    → is_one_of u seen ≡ false
    → Distinct (xs ++ u ∷ [])
unfolding is_one_of
Distinct-snoc seen [] u d k n = (refl, tt)
Distinct-snoc seen (x ∷ xs) u (dx, d) (kx, k) n = (
  ground (arith, dx, is_one_of-append x xs (u ∷ []), known_apart seen x u kx n),
  Distinct-snoc seen xs u d k n,
)

pub Distinct-drop : (xs ys : List Text) (y : Text) → Distinct (xs ++ y ∷ ys) → Distinct (xs ++ ys)
unfolding is_one_of
Distinct-drop [] ys y (n, d) = d
Distinct-drop (x ∷ xs) ys y (n, d) = (
  ground (arith, n, is_one_of-append x xs (y ∷ ys), is_one_of-append x xs ys),
  Distinct-drop xs ys y d,
)

pub Known-drop :
    (seen xs ys : List Text) (y : Text) → Known seen (xs ++ y ∷ ys) → Known seen (xs ++ ys)
Known-drop seen [] ys y (h, hs) = hs
Known-drop seen (x ∷ xs) ys y (h, hs) = (h, Known-drop seen xs ys y hs)

Known-snoc :
    (seen xs : List Text) (y : Text)
    → Known seen xs
    → is_one_of y seen ≡ true
    → Known seen (xs ++ y ∷ [])
Known-snoc seen [] y hs h = (h, tt)
Known-snoc seen (x ∷ xs) y (hx, hs) h = (hx, Known-snoc seen xs y hs h)

-- What was known is known when more is.
pub Known-more : (seen more xs : List Text) → Known seen xs → Known (seen ++ more) xs
Known-more seen more [] h = tt
Known-more seen more (x ∷ xs) (hx, h) =
    (ground (arith, hx, is_one_of-append x seen more), Known-more seen more xs h)

abbrev pub addresses : List (Text × ℕ) → List Text
addresses [] = []
addresses ((u, depth) ∷ queue) = u ∷ addresses queue

addresses-append :
    (queue : List (Text × ℕ)) (u : Text) (depth : ℕ)
    → addresses (queue ++ (u, depth) ∷ []) ≡ addresses queue ++ u ∷ []
addresses-append [] u depth = refl
addresses-append ((v, d) ∷ queue) u depth = rw (addresses-append queue u depth) refl

-- The addresses that were requested or wait for it.
abbrev pub touched : CrawlState → List Text
touched s = s.requests ++ addresses s.frontier

-- No address was requested twice, or waits after it was requested, or waits twice; all are known; and
-- the frontier keeps its limit.
pub record IsFresh (s : CrawlState) : Type 0 where
  pub distinct : Distinct (touched s)
  pub known : Known s.seen (touched s)
  pub bounded : length s.frontier ≤ frontier_cap

seen_now : (seen : List Text) (u : Text) → is_one_of u (seen ++ u ∷ []) ≡ true
unfolding is_one_of
seen_now seen u = ground (arith, is_one_of-append u seen (u ∷ []), text_eq_refl u)

touched-visit :
    (s : CrawlState) (u : Text) (depth : ℕ)
    → s.requests ++ addresses (s.frontier ++ (u, depth) ∷ []) ≡ touched s ++ u ∷ []
touched-visit s u depth =
    ap (λ us. s.requests ++ us) (addresses-append s.frontier u depth)
    ∙ sym (append_assoc s.requests (addresses s.frontier) (u ∷ []))

pub visit-IsFresh : (u : Text) (depth : ℕ) (s : CrawlState) → IsFresh s → IsFresh (visit u depth s)
unfolding visit
visit-IsFresh u depth s h =
    elim (Bool-cases (not (is_one_of u s.seen) && ltb (length s.frontier) frontier_cap)) [
      | inr n ↦ rw n h
      | inl y ↦
          let unknown : is_one_of u s.seen ≡ false = ground (arith, y) in
          rw y (record {
            distinct =
                rw (touched-visit s u depth)
                  (Distinct-snoc s.seen (touched s) u h.distinct h.known unknown);
            known = rw (touched-visit s u depth) (
                Known-snoc (s.seen ++ u ∷ []) (touched s) u
                  (Known-more s.seen (u ∷ []) (touched s) h.known) (seen_now s.seen u));
            bounded = ground (arith, y, length-append s.frontier ((u, depth) ∷ []));
          })
    ]
