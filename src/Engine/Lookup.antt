-- ===== src/Engine/Lookup.antt =====
-- Finding a document after it was written, and counting it among the open ones.
use ai_wa_chat_agent_be.Prelude.{◌≡◌, ◌<◌, Bool, true, ◌&&◌, some, List, [], ◌∷◌, arith}
use ai_wa_chat_agent_be.Campaign.{is_open}
use ai_wa_chat_agent_be.Engine.Store.{Recipient, find_one, update_one, open_n}

module _ {ℓ} {A : Type ℓ} (p : A → Bool) where
  pub find_one-holds : (xs : List A) (r : A) → find_one p xs ≡ some r → p r ≡ true
  unfolding find_one
  find_one-holds [] r e = cc
  find_one-holds (x ∷ xs) r e = ground (arith, find_one-holds xs r)

  pub find_one-and :
      (q : A → Bool) (xs : List A) (r : A)
      → find_one p xs ≡ some r
      → q r ≡ true
      → find_one (λ x. p x && q x) xs ≡ some r
  unfolding find_one
  find_one-and q [] r e h = cc
  find_one-and q (x ∷ xs) r e h = ground (arith, find_one-and q xs r)

  pub find_one-update_one :
      (f : A → A) (xs : List A) (r : A)
      → find_one p xs ≡ some r
      → p (f r) ≡ true
      → find_one p (update_one p f xs) ≡ some (f r)
  unfolding find_one update_one
  find_one-update_one f [] r e h = cc
  find_one-update_one f (x ∷ xs) r e h = ground (arith, find_one-update_one f xs r)

  pub update_one-and :
      (q : A → Bool) (f : A → A) (xs : List A) (r : A)
      → find_one p xs ≡ some r
      → q r ≡ true
      → update_one (λ x. p x && q x) f xs ≡ update_one p f xs
  unfolding find_one update_one
  update_one-and q f [] r e h = cc
  update_one-and q f (x ∷ xs) r e h = ground (arith, update_one-and q f xs r)

pub open_n-found :
    (p : Recipient → Bool) (rs : List Recipient) (r : Recipient)
    → find_one p rs ≡ some r
    → is_open r.status ≡ true
    → 0 < open_n rs
unfolding find_one
open_n-found p [] r e h = cc
open_n-found p (x ∷ rs) r e h = ground (arith, open_n-found p rs r)
