-- ===== src/BlastWorker/Rows.antt =====
-- One document of a list, found by its id and written twice.
use ai_wa_chat_agent_be.Prelude.{
  ℕ, ◌≤◌, ◌<◌, ◌≡◌, refl, Bool, true, ◌&&◌, none, some, List, [], ◌∷◌, arith, count, All,
}
use ai_wa_chat_agent_be.Engine.Store.{find_one, update_one, update_many}
use ai_wa_chat_agent_be.BlastWorker.Store.{BlastRecipient, row_has_id}

-- No id stands twice.
abbrev pub IsUnique : List BlastRecipient → Type 0
IsUnique rs = (i : ℕ) → count (row_has_id i) rs ≤ 1

abbrev pub KeepsId : (BlastRecipient → BlastRecipient) → Type 0
KeepsId f = (r : BlastRecipient) → (f r).id ≡ r.id

module _ {ℓ} {A : Type ℓ} (p : A → Bool) where
  pub find_one-count : (xs : List A) (r : A) → find_one p xs ≡ some r → 0 < count p xs
  unfolding find_one
  find_one-count [] r e = cc
  find_one-count (x ∷ xs) r e = ground (arith, find_one-count xs r)

  pub update_one-none : (f : A → A) (xs : List A) → find_one p xs ≡ none → update_one p f xs ≡ xs
  unfolding find_one update_one
  update_one-none f [] e = refl
  update_one-none f (x ∷ xs) e = ground (arith, update_one-none f xs)

  pub All-update_one {κ} :
      {P : A → Type κ} (f : A → A)
      → ((x : A) → p x ≡ true → P x → P (f x))
      → (xs : List A) → All P xs
      → All P (update_one p f xs)
  unfolding update_one
  All-update_one f h [] hs = hs
  All-update_one f h (x ∷ xs) (hx, hxs) = ground (arith, h x, All-update_one f h xs hxs)

  pub All-update_many {κ} :
      {P : A → Type κ} (f : A → A)
      → ((x : A) → p x ≡ true → P x → P (f x))
      → (xs : List A) → All P xs
      → All P (update_many p f xs)
  unfolding update_many
  All-update_many f h [] hs = hs
  All-update_many f h (x ∷ xs) (hx, hxs) = ground (arith, h x, All-update_many f h xs hxs)

find_one-both :
    (p q : BlastRecipient → Bool) (xs : List BlastRecipient) (r : BlastRecipient)
    → find_one (λ x. p x && q x) xs ≡ some r
    → 0 < count p xs
unfolding find_one
find_one-both p q [] r e = cc
find_one-both p q (x ∷ xs) r e = ground (arith, find_one-both p q xs r)

-- With one document of that id, the write of the claim and the write of the outcome are one.
pub update_one-twice :
    (i : ℕ) (q : BlastRecipient → Bool) (f g : BlastRecipient → BlastRecipient)
    → KeepsId g
    → (rs : List BlastRecipient) (r : BlastRecipient) → count (row_has_id i) rs ≤ 1
    → find_one (λ x. row_has_id i x && q x) rs ≡ some r
    → update_one (row_has_id i) f (update_one (λ x. row_has_id i x && q x) g rs)
      ≡ update_one (λ x. row_has_id i x && q x) (λ x. f (g x)) rs
unfolding find_one update_one
update_one-twice i q f g keeps [] r u e = refl
update_one-twice i q f g keeps (x ∷ xs) r u e =
    ground
      (arith, keeps x, update_one-twice i q f g keeps xs r, find_one-both (row_has_id i) q xs r)

pub count-update_one :
    (i : ℕ) (p : BlastRecipient → Bool) (f : BlastRecipient → BlastRecipient)
    → KeepsId f
    → (rs : List BlastRecipient)
    → count (row_has_id i) (update_one p f rs) ≡ count (row_has_id i) rs
unfolding update_one
count-update_one i p f keeps [] = refl
count-update_one i p f keeps (x ∷ xs) = ground (arith, keeps x, count-update_one i p f keeps xs)
