-- ===== src/Consent/Keywords.antt =====
-- The keyword of an inbound message among punctuation and white space.
use ai_wa_chat_agent_be.Prelude.{
  ℕ, ◌≡◌, refl, sym, ap, ◌∙◌, true, ◌&&◌, List, [], ◌∷◌, ◌++◌, arith, All, inl, inr, Bool-cases,
}
use ai_wa_chat_agent_be.Prelude.Text.{
  Text, is_space, lower, strip, lstrip, rstrip, is_empty, is_one_of,
}
use ai_wa_chat_agent_be.Consent.{
  is_punct, strip_front, strip_end, normalize_keyword_body, is_keyword,
}

abbrev pub AllPunct : Text → Type 0
AllPunct t = All (λ c. is_punct c ≡ true) t

space_is_punct : (c : ℕ) → is_space c ≡ true → is_punct c ≡ true
unfolding is_punct
space_is_punct c h = rw h refl

strip_front-lstrip : (t : Text) → strip_front (lstrip t) ≡ strip_front t
unfolding strip_front lstrip
strip_front-lstrip [] = refl
strip_front-lstrip (c ∷ cs) = elim (Bool-cases (is_space c)) [
  | inl blank ↦ rw (blank, space_is_punct c blank) (strip_front-lstrip cs)
  | inr ink ↦ rw ink refl
]

rstrip_gone :
    (c : ℕ) (cs : Text)
    → (is_space c && is_empty (rstrip cs)) ≡ true
    → (is_space c ≡ true) × (rstrip cs ≡ [])
rstrip_gone c cs h = ground arith

strip_end-cons :
    (c : ℕ) (s t : Text) → strip_end s ≡ strip_end t → strip_end (c ∷ s) ≡ strip_end (c ∷ t)
unfolding strip_end
strip_end-cons c s t h = rw h refl

strip_end-rstrip : (t : Text) → strip_end (rstrip t) ≡ strip_end t
unfolding strip_end rstrip
strip_end-rstrip [] = refl
strip_end-rstrip (c ∷ cs) = elim (Bool-cases (is_space c && is_empty (rstrip cs))) [
  | inl gone ↦
      let (blank, nil) = rstrip_gone c cs gone in
      rw (gone, space_is_punct c blank, sym (strip_end-rstrip cs), nil) refl
  | inr kept ↦ rw (kept, strip_end-rstrip cs) refl
]

strip_ends-rstrip : (t : Text) → strip_end (strip_front (rstrip t)) ≡ strip_end (strip_front t)
unfolding strip_front rstrip
strip_ends-rstrip [] = refl
strip_ends-rstrip (c ∷ cs) = elim (Bool-cases (is_punct c)) [
  | inl punct ↦ elim (Bool-cases (is_space c && is_empty (rstrip cs))) [
    | inl gone ↦
        let (_, nil) = rstrip_gone c cs gone in
        rw (gone, punct, sym (strip_ends-rstrip cs), nil) refl
    | inr kept ↦ rw (kept, punct) (strip_ends-rstrip cs)
  ]
  | inr ink ↦ elim (Bool-cases (is_space c)) [
    | inl blank ↦ cc (space_is_punct c blank, ink)
    | inr mark ↦ rw (mark, ink) (strip_end-cons c (rstrip cs) cs (strip_end-rstrip cs))
  ]
]

-- Stripping white space first changes nothing.
strip_ends-strip : (t : Text) → strip_end (strip_front (strip t)) ≡ strip_end (strip_front t)
unfolding strip
strip_ends-strip t = strip_ends-rstrip (lstrip t) ∙ ap strip_end (strip_front-lstrip t)

strip_front-append : (p t : Text) → AllPunct p → strip_front (p ++ t) ≡ strip_front t
unfolding strip_front
strip_front-append [] t h = refl
strip_front-append (c ∷ cs) t (h, hs) = rw h (strip_front-append cs t hs)

strip_front-punct : (q : Text) → AllPunct q → strip_front q ≡ []
unfolding strip_front
strip_front-punct [] h = refl
strip_front-punct (c ∷ cs) (h, hs) = rw h (strip_front-punct cs hs)

strip_end-punct : (q : Text) → AllPunct q → strip_end q ≡ []
unfolding strip_end
strip_end-punct [] h = refl
strip_end-punct (c ∷ cs) (h, hs) = rw (h, strip_end-punct cs hs) refl

strip_end-append : (t q : Text) → AllPunct q → strip_end (t ++ q) ≡ strip_end t
unfolding strip_end
strip_end-append [] q h = strip_end-punct q h
strip_end-append (c ∷ cs) q h = rw (strip_end-append cs q h) refl

strip_ends-append :
    (t q : Text) → AllPunct q → strip_end (strip_front (t ++ q)) ≡ strip_end (strip_front t)
unfolding strip_front
strip_ends-append [] q h = ap strip_end (strip_front-punct q h)
strip_ends-append (c ∷ cs) q h = elim (Bool-cases (is_punct c)) [
  | inl punct ↦ rw punct (strip_ends-append cs q h)
  | inr ink ↦ rw ink (strip_end-append (c ∷ cs) q h)
]

-- A message is the keyword that it is without the punctuation and white space around it.
pub is_keyword-punct :
    (keywords : List Text) (p body q : Text)
    → AllPunct p
    → AllPunct q
    → is_keyword keywords (p ++ (body ++ q)) ≡ is_keyword keywords body
unfolding is_keyword normalize_keyword_body
is_keyword-punct keywords p body q hp hq =
    ap (λ t. is_one_of (strip (lower t)) keywords)
      (strip_ends-strip (p ++ (body ++ q))
        ∙ ap strip_end (strip_front-append p (body ++ q) hp)
        ∙ strip_ends-append body q hq
        ∙ sym (strip_ends-strip body))
