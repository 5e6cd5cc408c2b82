-- ===== src/Consent/Sync.antt =====
-- A change of consent against the blacklist and the campaign recipients of its phone.
use ai_wa_chat_agent_be.Prelude.{
  ℕ, ◌+◌, ◌≤◌, ◌≡◌, refl, Bool, true, false, ◌&&◌, Option, some, List, [], ◌∷◌, ◌++◌, Option-cases,
  arith, any, count, if◌then◌else◌, Bool-cases, inl, inr,
}
use ai_wa_chat_agent_be.Prelude.Text.{Text, text_eq, text_eq_refl, eq_of_text_eq, or_text, is_empty}
use ai_wa_chat_agent_be.Campaign.{RecipientStatus, is_open}
use ai_wa_chat_agent_be.Consent.{
  ConsentStatus, unknown, pending, opted_in, opted_out, Lead, Change, Collections, upsert_phone,
  delete_phone, cancel_pending_for_phone, sync_phone, consent_update_fields, apply_consent_change,
}

abbrev pub is_listed : Text → List Text → Bool
is_listed p phones = any (text_eq p) phones

abbrev pub listings : Text → List Text → ℕ
listings p phones = count (text_eq p) phones

-- open recipients of a phone
abbrev pub open_for : Text → List (Text × RecipientStatus) → ℕ
open_for p [] = 0
open_for p ((q, st) ∷ rs) = (if text_eq p q && is_open st then 1 else 0) + open_for p rs

-- No phone stands twice on the blacklist.
abbrev pub IsUnique : List Text → Type 0
IsUnique phones = (p : Text) → listings p phones ≤ 1

listings-unlisted :
    (p : Text) (phones : List Text) → is_listed p phones ≡ false → listings p phones ≡ 0
listings-unlisted p [] h = refl
listings-unlisted p (q ∷ qs) h = ground (arith, listings-unlisted p qs)

unlisted-listings :
    (p : Text) (phones : List Text) → listings p phones ≡ 0 → is_listed p phones ≡ false
unlisted-listings p [] h = refl
unlisted-listings p (q ∷ qs) h = ground (arith, unlisted-listings p qs)

pub upsert_phone-listed :
    (p : Text) (phones : List Text) → is_listed p (upsert_phone p phones) ≡ true
unfolding upsert_phone
upsert_phone-listed p phones = ground (arith, text_eq_refl p)

upsert_phone-IsUnique :
    (p : Text) (phones : List Text) → IsUnique phones → IsUnique (upsert_phone p phones)
unfolding upsert_phone
upsert_phone-IsUnique p phones h q = elim (Bool-cases (is_listed p phones)) [
  | inl known ↦ rw known (h q)
  | inr new ↦ elim (Bool-cases (text_eq q p)) [
    | inl same ↦
        let gone : is_listed q phones ≡ false = rw (eq_of_text_eq q p same) new in
        rw (new, same) (ground (arith, listings-unlisted q phones gone))
    | inr other ↦ rw (new, other) (ground (arith, h q))
  ]
]

delete_phone-le :
    (p q : Text) (phones : List Text) → listings q (delete_phone p phones) ≤ listings q phones
unfolding delete_phone
delete_phone-le p q [] = omega arith
delete_phone-le p q (r ∷ rs) = ground (arith, delete_phone-le p q rs)

-- What is on the list once is off it after a deletion.
delete_phone-unlisted :
    (p : Text) (phones : List Text)
    → listings p phones ≤ 1
    → is_listed p (delete_phone p phones) ≡ false
unfolding delete_phone
delete_phone-unlisted p [] h = refl
delete_phone-unlisted p (q ∷ qs) h = elim (Bool-cases (text_eq p q)) [
  | inl same ↦ rw same (unlisted-listings p qs (ground arith))
  | inr other ↦ rw (other, other) (delete_phone-unlisted p qs (ground arith))
]

pub cancel_pending-closed :
    (p : Text) (rs : List (Text × RecipientStatus)) → open_for p (cancel_pending_for_phone p rs) ≡ 0
unfolding cancel_pending_for_phone is_open
cancel_pending-closed p [] = refl
cancel_pending-closed p ((q, st) ∷ rs) = ground (arith, cancel_pending-closed p rs)

delete_phone-IsUnique :
    (p : Text) (phones : List Text) → IsUnique phones → IsUnique (delete_phone p phones)
delete_phone-IsUnique p phones h q = omega (arith, delete_phone-le p q phones, h q)

sync_phone-IsUnique :
    (st : ConsentStatus) (p : Text) (s : Collections)
    → IsUnique s.blacklist
    → IsUnique (sync_phone st p s).blacklist
unfolding sync_phone
sync_phone-IsUnique opted_out p s h = upsert_phone-IsUnique p s.blacklist h
sync_phone-IsUnique opted_in p s h = delete_phone-IsUnique p s.blacklist h
sync_phone-IsUnique unknown p s h = h
sync_phone-IsUnique pending p s h = h

-- Every change of consent keeps each phone at most once on the blacklist.
pub apply_consent_change-IsUnique :
    (now : ℕ) (st : ConsentStatus) (c : Change) (phone : Option Text) (s : Collections)
    → IsUnique s.blacklist
    → IsUnique (apply_consent_change now st c phone s).blacklist
unfolding apply_consent_change
apply_consent_change-IsUnique now st c phone s h = elim (Option-cases s.lead) [
  | inl missing ↦ rw (missing, apply_consent_change) h
  | inr (l, found) ↦ elim (Bool-cases (is_empty (or_text phone (or_text l.phone [])))) [
    | inl blank ↦ rw (found, blank, apply_consent_change) h
    | inr named ↦
        let updated = record s { lead = some (consent_update_fields now st c l) } in
        rw (found, named, apply_consent_change)
          (sync_phone-IsUnique st (or_text phone (or_text l.phone [])) updated h)
  ]
]

-- The lead is found and its phone, or the caller's, is `p`. An opt-out puts the phone on the
-- blacklist and leaves no campaign recipient of the phone that is pending, queued, processing or
-- retrying; an opt-in takes the phone off a blacklist that has it at most once. Either is recorded
-- as the last consent event.
pub apply_consent_change-blacklist :
    (now : ℕ) (c : Change) (phone : Option Text) (p : Text) (l : Lead) (s : Collections)
    → s.lead ≡ some l
    → or_text phone (or_text l.phone []) ≡ p
    → is_empty p ≡ false
    → IsUnique s.blacklist
    → let out = apply_consent_change now opted_out c phone s in
      let back = apply_consent_change now opted_in c phone s in
      (is_listed p out.blacklist ≡ true)
      × (open_for p out.recipients ≡ 0)
      × (out.consent_events ≡ s.consent_events ++ opted_out ∷ [])
      × (is_listed p back.blacklist ≡ false)
      × (back.consent_events ≡ s.consent_events ++ opted_in ∷ [])
unfolding apply_consent_change sync_phone
apply_consent_change-blacklist now c phone p l s found named text unique =
    rw (found, named, text, apply_consent_change)
      (
        upsert_phone-listed p s.blacklist,
        cancel_pending-closed p s.recipients,
        refl,
        delete_phone-unlisted p s.blacklist (unique p),
        refl,
      )
