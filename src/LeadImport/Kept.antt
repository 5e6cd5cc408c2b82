-- ===== src/LeadImport/Kept.antt =====
-- What an import does to the consent of the leads that are there.
use ai_wa_chat_agent_be.Prelude.{
  ℕ, zero, suc, ◌≡◌, refl, ◌∙◌, ◌⊎◌, inl, inr, Bool, true, false, not, ◌&&◌, ◌||◌, Option, none,
  some, List, [], ◌∷◌, ◌++◌, arith, Bool-cases, Option-cases, is_some, All,
}
use ai_wa_chat_agent_be.Prelude.Text.{Text, codes, text_eq, is_one_of, lower, lower_code}
use ai_wa_chat_agent_be.LeadImport.Fields.{
  Row, ConsentFields, opt_in, opt_out, pending, unknown, fields_status, consent_fields_from_row,
}
use ai_wa_chat_agent_be.LeadImport.Leads.{
  Lead, Details, set_consent, write_details, leaves_consent, consent_status, new_lead, update_lead,
  update_at, details, find_phone,
}
use ai_wa_chat_agent_be.LeadImport.Run.{
  Job, Import, DuplicatePolicy, skip, update, fail, add_error, refused_email, store_existing,
  store_row, import_phone, import_checked, import_row, import_rows,
}
use ai_wa_chat_agent_be.LeadImport.Lookup.{Holds, IsFound, find_phone-IsFound}
use ai_wa_chat_agent_be.LeadImport.Each.{import_each, import_rows-each}

unfoldable pub is_opted_out : Lead → Bool
is_opted_out l = text_eq (consent_status l) (codes "opted_out")

-- Not opted in, or with a source and a time of the consent.
unfoldable pub is_evident : Lead → Bool
is_evident l =
    not (text_eq (consent_status l) (codes "opted_in"))
    || (is_some l.whatsapp_consent_source && is_some l.whatsapp_consent_at)

abbrev Keeps : Bool → Bool → Type 0
Keeps before after = (before ≡ false) ⊎ (after ≡ true)

Keeps-refl : (b : Bool) → Keeps b b
Keeps-refl true = inr refl
Keeps-refl false = inl refl

Keeps-trans : (a b c : Bool) → Keeps a b → Keeps b c → Keeps a c
Keeps-trans a b c h k = ground arith

-- The lead is the same, and is opted out, blacklisted or evident if it was.
pub record IsKept (x y : Lead) : Type 0 where
  pub phone : x.phone ≡ y.phone
  pub opt_out : Keeps (is_opted_out x) (is_opted_out y)
  pub blacklisted : Keeps x.blacklisted y.blacklisted
  pub evident : Keeps (is_evident x) (is_evident y)

IsKept-refl : (x : Lead) → IsKept x x
IsKept-refl x = record {
  phone = refl;
  opt_out = Keeps-refl (is_opted_out x);
  blacklisted = Keeps-refl x.blacklisted;
  evident = Keeps-refl (is_evident x);
}

IsKept-trans : (x y z : Lead) → IsKept x y → IsKept y z → IsKept x z
IsKept-trans x y z h k = record {
  phone = h.phone ∙ k.phone;
  opt_out = Keeps-trans _ _ _ h.opt_out k.opt_out;
  blacklisted = Keeps-trans _ _ _ h.blacklisted k.blacklisted;
  evident = Keeps-trans _ _ _ h.evident k.evident;
}

set_consent-IsKept :
    (now : ℕ) (d : Details) (c : ConsentFields) (x : Lead)
    → leaves_consent c x ≡ false
    → IsKept x (set_consent now c (write_details now d x))
unfolding set_consent write_details leaves_consent fields_status is_opted_out is_evident is_one_of
    text_eq lower lower_code
set_consent-IsKept now d (opt_in source at) x h = ground arith
set_consent-IsKept now d (opt_out source at) x h = ground arith
set_consent-IsKept now d (pending source at) x h = ground arith
set_consent-IsKept now d (unknown source) x h = ground arith

write_details-IsKept : (now : ℕ) (d : Details) (x : Lead) → IsKept x (write_details now d x)
unfolding write_details is_opted_out is_evident
write_details-IsKept now d x = record {
  phone = refl;
  opt_out = Keeps-refl (is_opted_out x);
  blacklisted = Keeps-refl x.blacklisted;
  evident = Keeps-refl (is_evident x);
}

update_lead-IsKept :
    (now : ℕ) (d : Details) (c : ConsentFields) (x : Lead) → IsKept x (update_lead now d c x x)
unfolding update_lead
update_lead-IsKept now d c x = elim (Bool-cases (leaves_consent c x)) [
  | inl y ↦ rw y (write_details-IsKept now d x)
  | inr n ↦ rw n (set_consent-IsKept now d c x n)
]

new_lead-is_evident :
    (now : ℕ) (phone : Text) (d : Details) (c : ConsentFields)
    → is_evident (new_lead now phone d c) ≡ true
unfolding new_lead set_consent is_evident text_eq lower lower_code
new_lead-is_evident now phone d (opt_in source at) = refl
new_lead-is_evident now phone d (opt_out source at) = refl
new_lead-is_evident now phone d (pending source at) = refl
new_lead-is_evident now phone d (unknown source) = refl

-- The leads are there in the same order, each kept, and those that are new are evident.
abbrev pub AreKept : List Lead → List Lead → Type 0
AreKept [] ys = All (λ y. is_evident y ≡ true) ys
AreKept (x ∷ xs) [] = ⊥
AreKept (x ∷ xs) (y ∷ ys) = IsKept x y × AreKept xs ys

AreKept-refl : (xs : List Lead) → AreKept xs xs
AreKept-refl [] = tt
AreKept-refl (x ∷ xs) = (IsKept-refl x, AreKept-refl xs)

AreKept-All :
    (xs ys : List Lead)
    → All (λ x. is_evident x ≡ true) xs
    → AreKept xs ys
    → All (λ y. is_evident y ≡ true) ys
AreKept-All [] ys h k = k
AreKept-All (x ∷ xs) [] h k = absurd k
AreKept-All (x ∷ xs) (y ∷ ys) (hx, h) (kx, k) =
    (ground (arith, kx.evident, hx), AreKept-All xs ys h k)

AreKept-trans : (xs ys zs : List Lead) → AreKept xs ys → AreKept ys zs → AreKept xs zs
AreKept-trans [] ys zs h k = AreKept-All ys zs h k
AreKept-trans (x ∷ xs) [] zs h k = absurd h
AreKept-trans (x ∷ xs) (y ∷ ys) [] h k = absurd k
AreKept-trans (x ∷ xs) (y ∷ ys) (z ∷ zs) (hx, h) (kx, k) =
    (IsKept-trans x y z hx kx, AreKept-trans xs ys zs h k)

append-AreKept : (xs : List Lead) (y : Lead) → is_evident y ≡ true → AreKept xs (xs ++ y ∷ [])
append-AreKept [] y h = (h, tt)
append-AreKept (x ∷ xs) y h = (IsKept-refl x, append-AreKept xs y h)

update_at-AreKept :
    (i : ℕ) (f : Lead → Lead) (e : Lead) (xs : List Lead)
    → Holds i e xs
    → IsKept e (f e)
    → AreKept xs (update_at i f xs)
unfolding update_at
update_at-AreKept i f e [] h k = tt
update_at-AreKept zero f e (x ∷ xs) h k = (rw h k, AreKept-refl xs)
update_at-AreKept (suc i) f e (x ∷ xs) h k = (IsKept-refl x, update_at-AreKept i f e xs h k)

module _ (j : Job) (row_num : ℕ) where
  store_existing-AreKept :
      (policy : DuplicatePolicy) (d : Details) (c : ConsentFields) (i : ℕ) (e : Lead) (s : Import)
      → Holds i e s.leads
      → AreKept s.leads (store_existing policy j row_num d c i e s).leads
  unfolding store_existing add_error
  store_existing-AreKept skip d c i e s h = AreKept-refl s.leads
  store_existing-AreKept fail d c i e s h = AreKept-refl s.leads
  store_existing-AreKept update d c i e s h =
      update_at-AreKept i _ e s.leads h (update_lead-IsKept j.now d c e)

  store_row-AreKept :
      (phone : Text) (d : Details) (c : ConsentFields) (found : Option (ℕ × Lead)) (s : Import)
      → IsFound phone s.leads found
      → AreKept s.leads (store_row j row_num phone d c found s).leads
  unfolding store_row
  store_row-AreKept phone d c none s h =
      append-AreKept s.leads _ (new_lead-is_evident j.now phone d c)
  store_row-AreKept phone d c (some (i, e)) s (at, same) =
      store_existing-AreKept j.policy d c i e s at

  import_phone-AreKept :
      (phone : Text) (row : Row) (s : Import)
      → AreKept s.leads (import_phone j row_num phone row (find_phone phone s.leads) s).leads
  unfolding import_phone add_error
  import_phone-AreKept phone row s = elim (Bool-cases (refused_email j phone row)) [
    | inl bad ↦ rw bad (AreKept-refl s.leads)
    | inr good ↦ elim (Option-cases (consent_fields_from_row j.readers j.now row)) [
      | inl bad ↦ rw (good, bad) (AreKept-refl s.leads)
      | inr (c, fields) ↦
          rw (good, fields)
            (store_row-AreKept phone (details phone row) c (find_phone phone s.leads) s
              (find_phone-IsFound phone s.leads))
    ]
  ]

  import_checked-AreKept :
      (row : Row) (phone : Option Text) (s : Import)
      → AreKept s.leads (import_checked j s.leads row_num row phone s).leads
  unfolding import_checked add_error
  import_checked-AreKept row none s = AreKept-refl s.leads
  import_checked-AreKept row (some phone) s = elim (Bool-cases (is_one_of phone s.seen_phones)) [
    | inl twice ↦ rw twice (AreKept-refl s.leads)
    | inr fresh ↦
        rw fresh (import_phone-AreKept phone row (record s { seen_phones = phone ∷ s.seen_phones }))
  ]

import_each-AreKept :
    (j : Job) (row_num : ℕ) (rows : List Row) (s : Import)
    → AreKept s.leads (import_each j row_num rows s).leads
unfolding import_each import_row
import_each-AreKept j n [] s = AreKept-refl s.leads
import_each-AreKept j n (row ∷ rows) s =
    AreKept-trans s.leads _ _ (import_checked-AreKept j n row _ s)
      (import_each-AreKept j (suc n) rows _)

-- Whatever the file and the policy: no lead is lost or gets another phone, a lead that is opted out or
-- blacklisted stays so, and one that is opted in with a source and a time of the consent, or not opted
-- in, stays one of these; every new lead is one of these.
pub import_rows-AreKept :
    (j : Job) (rows : List Row) (s : Import) → AreKept s.leads (import_rows j 0 [] 2 rows s).leads
import_rows-AreKept j rows s = rw (import_rows-each j 2 rows s) (import_each-AreKept j 2 rows s)
