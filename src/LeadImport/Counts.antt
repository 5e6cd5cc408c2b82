-- ===== src/LeadImport/Counts.antt =====
-- The counts of an import add up.
use ai_wa_chat_agent_be.Prelude.{
  ℕ, zero, suc, ◌+◌, ◌≤◌, ◌≡◌, refl, ◌⊎◌, inl, inr, Option, none, some, List, [], ◌∷◌, map, arith,
  Bool-cases, Option-cases, length, length-append, max, any,
}
use ai_wa_chat_agent_be.Prelude.Text.{Text, codes, is_one_of}
use ai_wa_chat_agent_be.LeadImport.Fields.{Row, ConsentFields, consent_fields_from_row}
use ai_wa_chat_agent_be.LeadImport.Sheet.{
  Upload, Sheet, Refusal, read_sheet, read_csv_rows, has_operator, normalize_line,
}
use ai_wa_chat_agent_be.LeadImport.Leads.{Lead, Details, update_at, details, find_phone}
use ai_wa_chat_agent_be.LeadImport.Run.{
  Job, Import, Summary, DuplicatePolicy, skip, update, fail, add_error, list_error, refused_email,
  store_existing, store_row, import_phone, import_checked, import_row, begin, summary, import_read,
  import_leads_csv,
}
use ai_wa_chat_agent_be.LeadImport.Each.{import_each, import_rows-each}

length-update_at :
    (i : ℕ) (f : Lead → Lead) (ls : List Lead) → length (update_at i f ls) ≡ length ls
unfolding update_at
length-update_at i f [] = refl
length-update_at zero f (l ∷ ls) = refl
length-update_at (suc i) f (l ∷ ls) = omega (arith, length-update_at i f ls)

length-list_error :
    (max_errors row_num : ℕ) (field : Text) (errors : List (ℕ × Text))
    → length errors ≤ max_errors
    → length (list_error max_errors row_num field errors) ≤ max_errors
unfolding list_error
length-list_error m n field errors h = ground (arith, length-append errors ((n, field) ∷ []))

-- Of `start` leads at first, `rows` rows have been dealt with.
pub record IsCounted (max_errors start rows : ℕ) (s : Import) : Type 0 where
  pub handled : s.created + s.updated + s.skipped + s.failed ≡ rows
  pub listed : length s.errors ≤ max_errors
  pub stored : length s.leads ≡ start + s.created

module _ (j : Job) (start rows row_num : ℕ) where
  add_error-IsCounted :
      (field : Text) (s : Import)
      → IsCounted j.max_errors start rows s
      → IsCounted j.max_errors start (suc rows) (add_error j.max_errors row_num field s)
  unfolding add_error
  add_error-IsCounted field s h =
      ground (arith, length-list_error j.max_errors row_num field s.errors h.listed)

  store_existing-IsCounted :
      (policy : DuplicatePolicy) (d : Details) (c : ConsentFields) (i : ℕ) (e : Lead) (s : Import)
      → IsCounted j.max_errors start rows s
      → IsCounted j.max_errors start (suc rows) (store_existing policy j row_num d c i e s)
  unfolding store_existing
  store_existing-IsCounted skip d c i e s h = omega arith
  store_existing-IsCounted fail d c i e s h = add_error-IsCounted (codes "phone") s h
  store_existing-IsCounted update d c i e s h = omega (arith, length-update_at i _ s.leads)

  store_row-IsCounted :
      (phone : Text) (d : Details) (c : ConsentFields) (found : Option (ℕ × Lead)) (s : Import)
      → IsCounted j.max_errors start rows s
      → IsCounted j.max_errors start (suc rows) (store_row j row_num phone d c found s)
  unfolding store_row
  store_row-IsCounted phone d c none s h = omega (arith, length-append s.leads (_ ∷ []))
  store_row-IsCounted phone d c (some (i, e)) s h = store_existing-IsCounted j.policy d c i e s h

  import_phone-IsCounted :
      (phone : Text) (row : Row) (found : Option (ℕ × Lead)) (s : Import)
      → IsCounted j.max_errors start rows s
      → IsCounted j.max_errors start (suc rows) (import_phone j row_num phone row found s)
  unfolding import_phone
  import_phone-IsCounted phone row found s h = elim (Bool-cases (refused_email j phone row)) [
    | inl bad ↦ rw bad (add_error-IsCounted (codes "email") s h)
    | inr good ↦ elim (Option-cases (consent_fields_from_row j.readers j.now row)) [
      | inl bad ↦ rw (good, bad) (add_error-IsCounted (codes "consent_status") s h)
      | inr (c, fields) ↦
          rw (good, fields) (store_row-IsCounted phone (details phone row) c found s h)
    ]
  ]

  import_checked-IsCounted :
      (row : Row) (phone : Option Text) (s : Import)
      → IsCounted j.max_errors start rows s
      → IsCounted j.max_errors start (suc rows) (import_checked j s.leads row_num row phone s)
  unfolding import_checked
  import_checked-IsCounted row none s h = add_error-IsCounted (codes "phone") s h
  import_checked-IsCounted row (some phone) s h =
      elim (Bool-cases (is_one_of phone s.seen_phones)) [
        | inl twice ↦ rw twice (
            ground
              (arith, length-list_error j.max_errors row_num (codes "phone") s.errors h.listed))
        | inr fresh ↦ rw fresh (
            import_phone-IsCounted phone row (find_phone phone s.leads)
              (record s { seen_phones = phone ∷ s.seen_phones })
              (record { handled = h.handled; listed = h.listed; stored = h.stored }))
      ]

import_each-IsCounted :
    (j : Job) (start done row_num : ℕ) (rows : List Row) (s : Import)
    → IsCounted j.max_errors start done s
    → IsCounted j.max_errors start (done + length rows) (import_each j row_num rows s)
unfolding import_each import_row
import_each-IsCounted j start done n [] s h = record {
  handled = omega arith;
  listed = h.listed;
  stored = h.stored;
}
import_each-IsCounted j start done n (row ∷ rows) s h =
    let next = import_checked-IsCounted j start done n row _ s h in
    let all = import_each-IsCounted j start (suc done) (suc n) rows _ next in
    record { handled = omega arith; listed = all.listed; stored = all.stored }

length-map : (f : Row → Row) (rows : List Row) → length (map f rows) ≡ length rows
length-map f [] = refl
length-map f (row ∷ rows) = omega (arith, length-map f rows)

read_sheet-length :
    (max_rows : ℕ) (sheet : Sheet) (rows : List Row)
    → read_sheet max_rows sheet ≡ inr rows
    → length rows ≤ max 1 max_rows
unfolding read_sheet
read_sheet-length m sheet rows h = ground (arith, length-map normalize_line sheet.lines)

read_csv_rows-length :
    (max_mb max_rows : ℕ) (u : Upload) (rows : List Row)
    → read_csv_rows max_mb max_rows u ≡ inr rows
    → length rows ≤ max 1 max_rows
unfolding read_csv_rows
read_csv_rows-length mb m u rows h = elim (Option-cases u.sheet) [
  | inl none_there ↦ ground (arith, none_there)
  | inr (sheet, there) ↦ ground (arith, there, read_sheet-length m sheet rows)
]

module _ (j : Job) (leads : List Lead) where
  abbrev IsAccounted : Summary → Type 0
  IsAccounted out =
      (out.result.created + out.result.updated + out.result.skipped + out.result.failed
        ≡ out.total_rows)
      × (length out.result.leads ≡ length leads + out.result.created)
      × (length out.result.errors ≤ max 1 j.max_errors)
      × (out.total_rows ≤ max 1 j.max_rows)

  summary-IsAccounted :
      (rows : List Row) → length rows ≤ max 1 j.max_rows → IsAccounted (summary j leads rows)
  unfolding summary
  summary-IsAccounted rows bound =
      let limited : Job = record j { max_errors = max 1 j.max_errors } in
      let counted =
        import_each-IsCounted limited (length leads) 0 2 rows (begin leads)
          (record { handled = refl; listed = omega arith; stored = omega arith }) in
      rw (import_rows-each limited 2 rows (begin leads))
        (omega (arith, counted.handled), counted.stored, counted.listed, bound)

  import_read-IsAccounted :
      (read : Refusal ⊎ List Row) (out : Summary)
      → ((rows : List Row) → read ≡ inr rows → length rows ≤ max 1 j.max_rows)
      → import_read j leads read ≡ inr out
      → IsAccounted out
  unfolding import_read
  import_read-IsAccounted (inl refused) out bound h = cc
  import_read-IsAccounted (inr rows) out bound h = elim (Bool-cases (any has_operator rows)) [
    | inl y ↦ cc (rw y at h)
    | inr n ↦
        let same : summary j leads rows ≡ out = cc (rw n at h) in
        rw (← same) (summary-IsAccounted rows (bound rows refl))
  ]

-- An import that is not refused: every row of the file is counted once, as created, updated, skipped or
-- failed; the leads are as many more as were created; no more errors are listed than the setting says,
-- and no more rows handled.
pub import_leads_csv-counts :
    (j : Job) (u : Upload) (leads : List Lead) (out : Summary)
    → import_leads_csv j u leads ≡ inr out
    → (out.result.created + out.result.updated + out.result.skipped + out.result.failed
        ≡ out.total_rows)
      × (length out.result.leads ≡ length leads + out.result.created)
      × (length out.result.errors ≤ max 1 j.max_errors)
      × (out.total_rows ≤ max 1 j.max_rows)
unfolding import_leads_csv
import_leads_csv-counts j u leads out h =
    import_read-IsAccounted j leads _ out (read_csv_rows-length j.max_mb j.max_rows u) h
