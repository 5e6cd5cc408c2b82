-- ===== src/Prelude/Text.antt =====
-- Text as a list of code points, with Python's `str.strip` (all its white space) and `str.lower`
-- (the ASCII letters; other letters are left alone). Used wherever the source normalises a status,
-- a plan, a role or a key.
use Prim.Native.Nat.{ℕ, ◌+◌, ◌≤◌}
use Prim.Native.Char.{code}
use Prim.Native.String.{String}
use mathlib.Core.Path.{◌≡◌, refl, ◌∙◌, sym, ap}
use mathlib.Core.Bool.{Bool, true, false, ◌&&◌, ◌||◌}
use mathlib.Core.Logic.{◌⊎◌, inl, inr}
use mathlib.Core.Option.{Option, none, some}
use mathlib.Core.List.{List, [], ◌∷◌, map}
use native.Mathlib.Omega.{arith}
use ai_wa_chat_agent_be.Prelude.Lists.{All}
use ai_wa_chat_agent_be.Prelude.Tests.{leb, ◌==◌, if◌then◌else◌, Bool-cases}

abbrev pub Text : Type 0
Text = List ℕ

-- A literal of the source.
abbrev pub codes : String → Text
codes String.[] = []
codes (String.◌∷◌ c s) = code c ∷ codes s

unfoldable pub text_eq : Text → Text → Bool
text_eq [] [] = true
text_eq [] (d ∷ ds) = false
text_eq (c ∷ cs) [] = false
text_eq (c ∷ cs) (d ∷ ds) = c == d && text_eq cs ds

pub text_eq_refl : (t : Text) → text_eq t t ≡ true
unfolding text_eq
text_eq_refl [] = refl
text_eq_refl (c ∷ cs) = ground (arith, text_eq_refl cs)

pub eq_of_text_eq : (s t : Text) → text_eq s t ≡ true → s ≡ t
unfolding text_eq
eq_of_text_eq [] [] h = refl
eq_of_text_eq [] (d ∷ ds) h = cc
eq_of_text_eq (c ∷ cs) [] h = cc
eq_of_text_eq (c ∷ cs) (d ∷ ds) h = ground (arith, eq_of_text_eq cs ds)

abbrev pub is_empty : Text → Bool
is_empty [] = true
is_empty (c ∷ cs) = false

-- `t or d`, where the text may be missing
abbrev pub or_text : Option Text → Text → Text
or_text none d = d
or_text (some t) d = if is_empty t then d else t

-- `t in ("a", "b", …)`
unfoldable pub is_one_of : Text → List Text → Bool
is_one_of t [] = false
is_one_of t (u ∷ us) = text_eq t u || is_one_of t us

-- What holds of every text of a list holds of one that is on it.
pub is_one_of-transfer :
    (P : Text → Type 0) (t : Text) (us : List Text) → is_one_of t us ≡ true → All P us → P t
unfolding is_one_of
is_one_of-transfer P t [] h hs = cc
is_one_of-transfer P t (u ∷ us) h (hu, hs) = elim (Bool-cases (text_eq t u)) [
  | inl y ↦ rw (eq_of_text_eq t u y) hu
  | inr n ↦ is_one_of-transfer P t us (ground (arith, h, n)) hs
]

unfoldable pub lookup_text {ℓ} : {A : Type ℓ} → Text → List (Text × A) → Option A
unfolding text_eq
lookup_text t [] = none
lookup_text t ((u, a) ∷ us) = if text_eq t u then some a else lookup_text t us

-- `sub in text`
unfoldable pub begins_with : Text → Text → Bool
begins_with [] text = true
begins_with (c ∷ cs) [] = false
begins_with (c ∷ cs) (d ∷ ds) = c == d && begins_with cs ds

unfoldable pub contains : Text → Text → Bool
unfolding begins_with
contains sub [] = is_empty sub
contains sub (c ∷ cs) = begins_with sub (c ∷ cs) || contains sub cs

unfoldable pub is_space : ℕ → Bool
is_space c =
    (leb 9 c && leb c 13)
    || (leb 28 c && leb c 32)
    || c == 0x85
    || c == 0xa0
    || c == 0x1680
    || (leb 0x2000 c && leb c 0x200a)
    || c == 0x2028
    || c == 0x2029
    || c == 0x202f
    || c == 0x205f
    || c == 0x3000

unfoldable pub lower_code : ℕ → ℕ
lower_code c = if leb b'A' c && leb c b'Z' then c + 32 else c

unfoldable pub lower : Text → Text
unfolding lower_code
lower = map lower_code

unfoldable pub lstrip : Text → Text
unfolding is_space
lstrip [] = []
lstrip (c ∷ cs) = let rest = lstrip cs in if is_space c then rest else c ∷ cs

unfoldable pub rstrip : Text → Text
unfolding is_space
rstrip [] = []
rstrip (c ∷ cs) = let rest = rstrip cs in if is_space c && is_empty rest then [] else c ∷ rest

unfoldable pub strip : Text → Text
unfolding lstrip rstrip
strip t = rstrip (lstrip t)

letter_not_space : (c : ℕ) → b'A' ≤ c → c ≤ b'z' → is_space c ≡ false
unfolding is_space
letter_not_space c low high = ground arith

lower_code-cases :
    (c : ℕ) → (lower_code c ≡ c) ⊎ ((b'A' ≤ c) × (c ≤ b'Z') × (lower_code c ≡ c + 32))
unfolding lower_code
lower_code-cases c = ground arith

is_space-lower_code : (c : ℕ) → is_space (lower_code c) ≡ is_space c
is_space-lower_code c = elim (lower_code-cases c) [
  | inl same ↦ rw same
  | inr (low, high, moved) ↦ rw moved (
      letter_not_space (c + 32) (omega arith) (omega arith)
      ∙ sym (letter_not_space c low (omega arith)))
]

lower_code_idem : (c : ℕ) → lower_code (lower_code c) ≡ lower_code c
unfolding lower_code
lower_code_idem c = ground arith

pub lower_idem : (t : Text) → lower (lower t) ≡ lower t
unfolding lower
lower_idem [] = refl
lower_idem (c ∷ cs) = cc (lower_code_idem c, lower_idem cs)

is_empty-lower : (t : Text) → is_empty (lower t) ≡ is_empty t
unfolding lower
is_empty-lower [] = refl
is_empty-lower (c ∷ cs) = refl

lstrip-lower : (t : Text) → lstrip (lower t) ≡ lower (lstrip t)
unfolding lower lstrip
lstrip-lower [] = refl
lstrip-lower (c ∷ cs) = ground (arith, is_space-lower_code c, lstrip-lower cs)

rstrip-lower : (t : Text) → rstrip (lower t) ≡ lower (rstrip t)
unfolding lower rstrip
rstrip-lower [] = refl
rstrip-lower (c ∷ cs) =
    ground (arith, is_space-lower_code c, rstrip-lower cs, is_empty-lower (rstrip cs))

pub strip-lower : (t : Text) → strip (lower t) ≡ lower (strip t)
unfolding strip
strip-lower t = ap rstrip (lstrip-lower t) ∙ rstrip-lower (lstrip t)

rstrip_idem : (t : Text) → rstrip (rstrip t) ≡ rstrip t
unfolding rstrip
rstrip_idem [] = refl
rstrip_idem (c ∷ cs) = ground (arith, rstrip_idem cs)

-- The text is empty or begins with something to print.
abbrev StartsWithInk : Text → Type 0
StartsWithInk [] = Unit {0}
StartsWithInk (c ∷ cs) = is_space c ≡ false

lstrip-StartsWithInk : (t : Text) → StartsWithInk (lstrip t)
unfolding lstrip
lstrip-StartsWithInk [] = tt
lstrip-StartsWithInk (c ∷ cs) = elim (Bool-cases (is_space c)) [
  | inl blank ↦ rw blank (lstrip-StartsWithInk cs)
  | inr ink ↦ rw ink ink
]

rstrip-StartsWithInk : (t : Text) → StartsWithInk t → StartsWithInk (rstrip t)
unfolding rstrip
rstrip-StartsWithInk [] h = tt
rstrip-StartsWithInk (c ∷ cs) h = rw h h

lstrip_done : (t : Text) → StartsWithInk t → lstrip t ≡ t
unfolding lstrip
lstrip_done [] h = refl
lstrip_done (c ∷ cs) h = rw h

pub strip_idem : (t : Text) → strip (strip t) ≡ strip t
unfolding strip
strip_idem t =
    ap rstrip (lstrip_done (strip t) (rstrip-StartsWithInk (lstrip t) (lstrip-StartsWithInk t)))
    ∙ rstrip_idem (lstrip t)

-- `x.strip().lower()`, the normal form of every key that the source compares.
unfoldable pub normal : Text → Text
unfolding strip lower
normal t = lower (strip t)

-- Normalising a second time changes nothing.
pub normal_idem : (t : Text) → normal (normal t) ≡ normal t
unfolding normal
normal_idem t = ap lower (strip-lower (strip t) ∙ ap lower (strip_idem t)) ∙ lower_idem (strip t)

normal_test : normal (codes " \tDelivered ") ≡ codes "delivered"
unfolding normal
normal_test = refl
