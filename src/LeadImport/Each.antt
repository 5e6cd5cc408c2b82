-- ===== src/LeadImport/Each.antt =====
-- The import with a lookup for every row, and why the batches of the code come to the same.
use ai_wa_chat_agent_be.Prelude.{
  ℕ, zero, suc, ◌-◌, ◌≡◌, refl, sym, ◌∙◌, inl, inr, false, Option, none, some, List, [], ◌∷◌, arith,
  Bool-cases, Option-cases, max,
}
use ai_wa_chat_agent_be.Prelude.Text.{Text, text_eq, eq_of_text_eq, is_one_of}
use ai_wa_chat_agent_be.LeadImport.Fields.{Row, ConsentFields, consent_fields_from_row}
use ai_wa_chat_agent_be.LeadImport.Leads.{Lead, Details, details, update_lead, find_phone}
use ai_wa_chat_agent_be.LeadImport.Run.{
  Job, Import, DuplicatePolicy, skip, update, fail, store_existing, refused_email, add_error,
  store_row, import_phone, import_checked, import_row, import_rows,
}
use ai_wa_chat_agent_be.LeadImport.Lookup.{
  new_lead-phone, find_phone-append, find_phone-update_at, update_lead-phone, Holds, IsFound,
  find_phone-IsFound,
}

-- Every row is looked up in the leads as they are.
unfoldable pub import_each : Job → ℕ → List Row → Import → Import
import_each j row_num [] s = s
import_each j row_num (row ∷ rows) s =
    import_each j (suc row_num) rows (import_row j s.leads row_num row s)

module _ (j : Job) (row_num : ℕ) (q : Text) (d : Details) (c : ConsentFields) where
  store_existing-find_phone :
      (policy : DuplicatePolicy) (i : ℕ) (e : Lead) (s : Import)
      → Holds i e s.leads
      → text_eq q e.phone ≡ false
      → find_phone q (store_existing policy j row_num d c i e s).leads ≡ find_phone q s.leads
  unfolding store_existing add_error
  store_existing-find_phone skip i e s at ne = refl
  store_existing-find_phone fail i e s at ne = refl
  store_existing-find_phone update i e s at ne =
      find_phone-update_at q (update_lead j.now d c e) i e s.leads at ne
        (rw (update_lead-phone j.now d c e e) ne)

  -- A phone that is not the row's is found as before.
  store_row-find_phone :
      (phone : Text) (found : Option (ℕ × Lead)) (s : Import)
      → IsFound phone s.leads found
      → text_eq q phone ≡ false
      → find_phone q (store_row j row_num phone d c found s).leads ≡ find_phone q s.leads
  unfolding store_row
  store_row-find_phone phone none s h ne =
      find_phone-append q s.leads _ (rw (new_lead-phone j.now phone d c) ne)
  store_row-find_phone phone (some (i, e)) s (at, same) ne =
      store_existing-find_phone j.policy i e s at (rw (← eq_of_text_eq phone e.phone same) ne)

import_phone-find_phone :
    (j : Job) (row_num : ℕ) (q phone : Text) (row : Row) (found : Option (ℕ × Lead)) (s : Import)
    → IsFound phone s.leads found
    → text_eq q phone ≡ false
    → find_phone q (import_phone j row_num phone row found s).leads ≡ find_phone q s.leads
unfolding import_phone add_error
import_phone-find_phone j n q phone row found s h ne =
    elim (Bool-cases (refused_email j phone row)) [
      | inl bad ↦ rw (bad) refl
      | inr good ↦ elim (Option-cases (consent_fields_from_row j.readers j.now row)) [
        | inl bad ↦ rw (good, bad) refl
        | inr (c, fields) ↦
            rw (good, fields) (store_row-find_phone j n q (details phone row) c phone found s h ne)
      ]
    ]

store_existing-seen_phones :
    (policy : DuplicatePolicy) (j : Job) (row_num : ℕ) (d : Details) (c : ConsentFields) (i : ℕ)
    (e : Lead) (s : Import)
    → (store_existing policy j row_num d c i e s).seen_phones ≡ s.seen_phones
unfolding store_existing add_error
store_existing-seen_phones skip j n d c i e s = refl
store_existing-seen_phones update j n d c i e s = refl
store_existing-seen_phones fail j n d c i e s = refl

store_row-seen_phones :
    (j : Job) (row_num : ℕ) (phone : Text) (d : Details) (c : ConsentFields)
    (found : Option (ℕ × Lead)) (s : Import)
    → (store_row j row_num phone d c found s).seen_phones ≡ s.seen_phones
unfolding store_row
store_row-seen_phones j n phone d c none s = refl
store_row-seen_phones j n phone d c (some (i, e)) s =
    store_existing-seen_phones j.policy j n d c i e s

import_phone-seen_phones :
    (j : Job) (row_num : ℕ) (phone : Text) (row : Row) (found : Option (ℕ × Lead)) (s : Import)
    → (import_phone j row_num phone row found s).seen_phones ≡ s.seen_phones
unfolding import_phone add_error
import_phone-seen_phones j n phone row found s = elim (Bool-cases (refused_email j phone row)) [
  | inl bad ↦ rw bad refl
  | inr good ↦ elim (Option-cases (consent_fields_from_row j.readers j.now row)) [
    | inl bad ↦ rw (good, bad) refl
    | inr (c, fields) ↦
        rw (good, fields) (store_row-seen_phones j n phone (details phone row) c found s)
  ]
]

is_one_of-cons :
    (q p : Text) (ps : List Text)
    → is_one_of q (p ∷ ps) ≡ false
    → (text_eq q p ≡ false) × (is_one_of q ps ≡ false)
unfolding is_one_of
is_one_of-cons q p ps h = ground arith

-- For the phones that the file has not had yet, a lookup finds the same in both lists.
abbrev pub Agree : List Lead → Import → Type 0
Agree known s =
    (q : Text) → is_one_of q s.seen_phones ≡ false → find_phone q known ≡ find_phone q s.leads

module _ (j : Job) (known : List Lead) (row_num : ℕ) (row : Row) (s : Import)
    (agree : Agree known s) where
  import_checked-known :
      (phone : Option Text)
      → import_checked j known row_num row phone s ≡ import_checked j s.leads row_num row phone s
  unfolding import_checked
  import_checked-known none = refl
  import_checked-known (some phone) = elim (Bool-cases (is_one_of phone s.seen_phones)) [
    | inl twice ↦ rw twice refl
    | inr fresh ↦ rw (fresh, agree phone fresh) refl
  ]

  import_checked-Agree :
      (phone : Option Text) → Agree known (import_checked j s.leads row_num row phone s)
  unfolding import_checked add_error
  import_checked-Agree none = agree
  import_checked-Agree (some phone) = elim (Bool-cases (is_one_of phone s.seen_phones)) [
    | inl twice ↦ rw twice agree
    | inr fresh ↦ rw fresh (λ q unseen.
        let next : Import = record s { seen_phones = phone ∷ s.seen_phones } in
        let found = find_phone phone s.leads in
        let (other, before) =
          is_one_of-cons q phone s.seen_phones
            (rw (import_phone-seen_phones j row_num phone row found next) at unseen) in
        agree q before
        ∙ sym (
            import_phone-find_phone j row_num q phone row found next
              (find_phone-IsFound phone s.leads) other))
  ]

import_rows-eq :
    (j : Job) (left : ℕ) (known : List Lead) (row_num : ℕ) (rows : List Row) (s : Import)
    → Agree known s
    → import_rows j left known row_num rows s ≡ import_each j row_num rows s
unfolding import_rows import_each import_row
import_rows-eq j left known n [] s agree = refl
import_rows-eq j zero known n (row ∷ rows) s agree =
    import_rows-eq j (max 1 j.batch_size - 1) s.leads (suc n) rows (import_row j s.leads n row s)
      (import_checked-Agree j s.leads n row s (λ q h. refl) _)
import_rows-eq j (suc left) known n (row ∷ rows) s agree =
    rw (import_checked-known j known n row s agree _) (
      import_rows-eq j left known (suc n) rows (import_row j s.leads n row s)
        (import_checked-Agree j known n row s agree _))

-- The batches in which the leads are looked up make no difference, whatever their size.
pub import_rows-each :
    (j : Job) (row_num : ℕ) (rows : List Row) (s : Import)
    → import_rows j 0 [] row_num rows s ≡ import_each j row_num rows s
unfolding import_rows import_each import_row
import_rows-each j n [] s = refl
import_rows-each j n (row ∷ rows) s =
    import_rows-eq j (max 1 j.batch_size - 1) s.leads (suc n) rows (import_row j s.leads n row s)
      (import_checked-Agree j s.leads n row s (λ q h. refl) _)
