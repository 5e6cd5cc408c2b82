-- ===== src/LeadImport/Lookup.antt =====
-- What is found of a phone after a lead was added or changed.
use ai_wa_chat_agent_be.Prelude.{
  ℕ, zero, suc, ◌≡◌, refl, inl, inr, true, false, Option, none, some, List, [], ◌∷◌, ◌++◌,
  Bool-cases, Option-cases,
}
use ai_wa_chat_agent_be.Prelude.Text.{Text, text_eq}
use ai_wa_chat_agent_be.LeadImport.Fields.{ConsentFields}
use ai_wa_chat_agent_be.LeadImport.Leads.{
  Lead, Details, set_consent, leaves_consent, new_lead, write_details, update_lead, find_phone,
  update_at,
}

pub set_consent-phone :
    (now : ℕ) (c : ConsentFields) (l : Lead) → (set_consent now c l).phone ≡ l.phone
unfolding set_consent
set_consent-phone now (ConsentFields.opt_in s t) l = refl
set_consent-phone now (ConsentFields.opt_out s t) l = refl
set_consent-phone now (ConsentFields.pending s t) l = refl
set_consent-phone now (ConsentFields.unknown s) l = refl

pub update_lead-phone :
    (now : ℕ) (d : Details) (c : ConsentFields) (e l : Lead)
    → (update_lead now d c e l).phone ≡ l.phone
unfolding update_lead write_details
update_lead-phone now d c e l = elim (Bool-cases (leaves_consent c e)) [
  | inl y ↦ rw y refl
  | inr n ↦ rw n (set_consent-phone now c (write_details now d l))
]

pub new_lead-phone :
    (now : ℕ) (phone : Text) (d : Details) (c : ConsentFields)
    → (new_lead now phone d c).phone ≡ phone
unfolding new_lead
new_lead-phone now phone d c = set_consent-phone now c _

pub find_phone-append :
    (q : Text) (ls : List Lead) (l : Lead)
    → text_eq q l.phone ≡ false
    → find_phone q (ls ++ l ∷ []) ≡ find_phone q ls
unfolding find_phone
find_phone-append q [] l ne = rw ne
find_phone-append q (k ∷ ls) l ne = rw (find_phone-append q ls l ne)

-- The position holds the lead.
abbrev pub Holds : ℕ → Lead → List Lead → Type 0
Holds i e [] = ⊥
Holds zero e (l ∷ ls) = l ≡ e
Holds (suc i) e (l ∷ ls) = Holds i e ls

-- What a lookup finds stands at its position, and has the phone.
abbrev pub IsFound : Text → List Lead → Option (ℕ × Lead) → Type 0
IsFound p ls none = Unit
IsFound p ls (some (i, e)) = Holds i e ls × (text_eq p e.phone ≡ true)

pub find_phone-IsFound : (p : Text) (ls : List Lead) → IsFound p ls (find_phone p ls)
unfolding find_phone
find_phone-IsFound p [] = tt
find_phone-IsFound p (l ∷ ls) = elim (Option-cases (find_phone p ls)) [
  | inr ((k, g), found) ↦
      let earlier : IsFound p ls (some (k, g)) = rw found at (find_phone-IsFound p ls) in
      rw found earlier
  | inl new ↦ elim (Bool-cases (text_eq p l.phone)) [
    | inl y ↦ rw (new, y) (refl, y)
    | inr n ↦ rw (new, n) tt
  ]
]

pub find_phone-update_at :
    (q : Text) (f : Lead → Lead) (i : ℕ) (e : Lead) (ls : List Lead)
    → Holds i e ls
    → text_eq q e.phone ≡ false
    → text_eq q (f e).phone ≡ false
    → find_phone q (update_at i f ls) ≡ find_phone q ls
unfolding find_phone update_at
find_phone-update_at q f i e [] h n n' = absurd h
find_phone-update_at q f zero e (l ∷ ls) h n n' =
    let old : text_eq q l.phone ≡ false = rw h n in
    let new : text_eq q (f l).phone ≡ false = rw h n' in
    elim (Option-cases (find_phone q ls)) [
      | inl nowhere ↦ rw (nowhere, old, new) refl
      | inr (at, found) ↦ rw found refl
    ]
find_phone-update_at q f (suc i) e (l ∷ ls) h n n' =
    rw (find_phone-update_at q f i e ls h n n') refl
