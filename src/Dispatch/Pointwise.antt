-- ===== src/Dispatch/Pointwise.antt =====
-- What a callback does to the messages and to the recipients of blasts, one by one.
use ai_wa_chat_agent_be.Prelude.{
  ℕ, zero, suc, ◌≤◌, ◌≡◌, refl, sym, ap, Bool, true, false, not, ◌||◌, Option, none, some, List, [],
  ◌∷◌, arith, inl, inr, any, is_some, map, count, All, if◌then◌else◌, Bool-cases, Option-cases,
}
use ai_wa_chat_agent_be.Prelude.Text.{Text, is_empty, strip}
use ai_wa_chat_agent_be.Delivery.{
  DeliveryDoc, Callback, build_status_update, apply_callback, normalize_status,
}
use ai_wa_chat_agent_be.Blast.{Blast, update_found, update_blast_recipient}
use ai_wa_chat_agent_be.Dispatch.{
  Keyed, KeyedRow, Documents, has_message_key, has_row_key, has_pair_key, move_messages, set_blast,
  move_rows, apply_twilio_status_callback, Numbers, empty_id, unknown_id, pnid_mismatch,
  unknown_status, handled, is_mismatch, apply_meta_status_update,
}

-- The rule for one document: the callback if it holds the id, and nothing else.
abbrev pub moved_message : Text → Callback → Keyed → Keyed
moved_message k cb m = if has_message_key k m then record m { doc = apply_callback m.doc cb } else m

abbrev pub moved_row : Text → Callback → KeyedRow → KeyedRow
moved_row k cb r = if has_row_key k r then record r { doc = apply_callback r.doc cb } else r

-- The blast of each of the recipients is there.
abbrev pub HaveBlasts : (ℕ → Option Blast) → List KeyedRow → Type 0
HaveBlasts blasts rs = All (λ (r : KeyedRow). is_some (blasts r.blast_id) ≡ true) rs

module _ {ℓ} {A : Type ℓ} where
  any-count : (p : A → Bool) (xs : List A) → count p xs ≤ 0 → any p xs ≡ false
  any-count p [] h = refl
  any-count p (x ∷ xs) h = ground (arith, any-count p xs)

map-unmoved :
    (k : Text) (cb : Callback) (ms : List Keyed)
    → any (has_message_key k) ms ≡ false
    → map (moved_message k cb) ms ≡ ms
map-unmoved k cb [] h = refl
map-unmoved k cb (m ∷ ms) h = ground (arith, map-unmoved k cb ms)

move_messages-map :
    (n : ℕ) (k : Text) (cb : Callback) (ms : List Keyed)
    → count (has_message_key k) ms ≤ n
    → move_messages n k cb ms ≡ map (moved_message k cb) ms
unfolding move_messages
move_messages-map n k cb [] h = refl
move_messages-map zero k cb (m ∷ ms) h = elim (Bool-cases (has_message_key k m)) [
  | inl y ↦ absurd (ground (arith, h, y))
  | inr n ↦ rw n (
      ap (λ xs. m ∷ xs)
        (sym (map-unmoved k cb ms (any-count (has_message_key k) ms (ground (arith, h, n))))))
]
move_messages-map (suc n) k cb (m ∷ ms) h = elim (Bool-cases (has_message_key k m)) [
  | inl y ↦ rw y (
      ap (λ xs. record m { doc = apply_callback m.doc cb } ∷ xs)
        (move_messages-map n k cb ms (ground (arith, h, y))))
  | inr o ↦ rw o (ap (λ xs. m ∷ xs) (move_messages-map (suc n) k cb ms (ground (arith, h, o))))
]

rows-unmoved :
    (k : Text) (cb : Callback) (rs : List KeyedRow)
    → any (has_row_key k) rs ≡ false
    → map (moved_row k cb) rs ≡ rs
rows-unmoved k cb [] h = refl
rows-unmoved k cb (r ∷ rs) h = ground (arith, rows-unmoved k cb rs)

update_blast_recipient-doc :
    (o : Option Blast) (d : DeliveryDoc) (cb : Callback)
    → is_some o ≡ true
    → let (b, e, updated) = update_blast_recipient o d cb in
      (is_some b ≡ true) × (e ≡ apply_callback d cb)
unfolding update_blast_recipient update_found apply_callback
update_blast_recipient-doc none d cb h = cc
update_blast_recipient-doc (some b) d cb h = elim (Option-cases (build_status_update d cb)) [
  | inl e ↦ rw (e, update_found, update_blast_recipient, apply_callback) (refl, refl)
  | inr (u, e) ↦ rw (e, update_found, update_blast_recipient, apply_callback) (refl, refl)
]

HaveBlasts-set_blast :
    (i : ℕ) (b : Option Blast) (blasts : ℕ → Option Blast) (rs : List KeyedRow)
    → is_some b ≡ true
    → HaveBlasts blasts rs
    → HaveBlasts (set_blast i b blasts) rs
HaveBlasts-set_blast i b blasts [] there h = tt
HaveBlasts-set_blast i b blasts (r ∷ rs) there (hr, hs) =
    (ground (arith, hr, there), HaveBlasts-set_blast i b blasts rs there hs)

move_rows-map :
    (n : ℕ) (k : Text) (cb : Callback) (rs : List KeyedRow) (blasts : ℕ → Option Blast)
    → count (has_row_key k) rs ≤ n
    → HaveBlasts blasts rs
    → (move_rows n k cb rs blasts).0 ≡ map (moved_row k cb) rs
unfolding move_rows
move_rows-map n k cb [] blasts h there = refl
move_rows-map zero k cb (r ∷ rs) blasts h (hr, hs) = elim (Bool-cases (has_row_key k r)) [
  | inl y ↦ absurd (ground (arith, h, y))
  | inr o ↦ rw o (
      ap (λ xs. r ∷ xs)
        (sym (rows-unmoved k cb rs (any-count (has_row_key k) rs (ground (arith, h, o))))))
]
move_rows-map (suc n) k cb (r ∷ rs) blasts h (hr, hs) = elim (Bool-cases (has_row_key k r)) [
  | inl y ↦
      let (kept, same) = update_blast_recipient-doc (blasts r.blast_id) r.doc cb hr in
      let b = (update_blast_recipient (blasts r.blast_id) r.doc cb).0 in
      let rest =
        move_rows-map n k cb rs (set_blast r.blast_id b blasts) (ground (arith, h, y))
          (HaveBlasts-set_blast r.blast_id b blasts rs kept hs) in
      rw (y, same, rest) refl
  | inr o ↦ rw (o, move_rows-map (suc n) k cb rs blasts (ground (arith, h, o)) hs) refl
]

-- What a callback comes to for the messages and the recipients of blasts.
abbrev pub IsPointwise : Text → Callback → Documents → Documents → Type 0
IsPointwise k cb s t =
    (t.messages ≡ map (moved_message k cb) s.messages)
    × (t.blast_rows ≡ map (moved_row k cb) s.blast_rows)

-- If at most twenty messages and twenty recipients of blasts hold the id of a callback of Twilio, and
-- the blasts of the recipients are there, then whichever branch handles it, each message and each
-- recipient of a blast that holds the id is moved by the callback once, and every other stays as it
-- was.
pub apply_twilio_status_callback-IsPointwise :
    (k : Text) (cb : Callback) (s : Documents)
    → count (has_message_key k) s.messages ≤ 20
    → count (has_row_key k) s.blast_rows ≤ 20
    → HaveBlasts s.blasts s.blast_rows
    → IsPointwise k cb s (apply_twilio_status_callback k cb s).0
unfolding apply_twilio_status_callback
apply_twilio_status_callback-IsPointwise k cb s few_messages few_rows there =
    let rows = move_rows-map 20 k cb s.blast_rows s.blasts few_rows there in
    elim (Bool-cases (any (has_message_key k) s.messages)) [
      | inl y ↦
          rw (y, apply_twilio_status_callback)
            (move_messages-map 20 k cb s.messages few_messages, rows)
      | inr none_there ↦
          let still = sym (map-unmoved k cb s.messages none_there) in
          elim (Bool-cases (any (has_row_key k) s.blast_rows)) [
            | inl y ↦ rw (none_there, y, apply_twilio_status_callback) (still, rows)
            | inr no_rows ↦
                let rows_still = sym (rows-unmoved k cb s.blast_rows no_rows) in
                elim (Bool-cases (any (has_pair_key k) s.campaign_keys)) [
                  | inl y ↦
                      rw (none_there, no_rows, y, apply_twilio_status_callback) (still, rows_still)
                  | inr n ↦
                      rw (none_there, no_rows, n, apply_twilio_status_callback) (still, rows_still)
                ]
          ]
    ]

-- The same of a callback of Meta that is handled: one message and at most twenty recipients of blasts
-- hold its id, stripped, and their blasts are there.
apply_meta_status_update-IsPointwise :
    (k : Text) (cb : Callback) (n : Numbers) (s : Documents)
    → count (has_message_key (strip k)) s.messages ≤ 1
    → count (has_row_key (strip k)) s.blast_rows ≤ 20
    → HaveBlasts s.blasts s.blast_rows
    → (apply_meta_status_update k cb n s).1 ≡ handled
    → IsPointwise (strip k) cb s (apply_meta_status_update k cb n s).0
unfolding apply_meta_status_update
apply_meta_status_update-IsPointwise k cb n s one few there =
    elim (Bool-cases (is_empty (strip k))) [
      | inl y ↦
          rw (y, apply_meta_status_update) (λ e. absurd (let d : empty_id ≡ handled = e in cc))
      | inr a ↦
          elim (Bool-cases (
            not (
              any (has_message_key (strip k)) s.messages
              || any (has_pair_key (strip k)) s.campaign_keys
              || any (has_row_key (strip k)) s.blast_rows))) [
                | inl y ↦
                    rw (a, y, apply_meta_status_update)
                      (λ e. absurd (let d : unknown_id ≡ handled = e in cc))
                | inr b ↦ elim (Bool-cases (is_mismatch n)) [
                  | inl y ↦
                      rw (a, b, y, apply_meta_status_update)
                        (λ e. absurd (let d : pnid_mismatch ≡ handled = e in cc))
                  | inr c ↦ elim (Bool-cases (not (is_some (normalize_status (some cb.raw))))) [
                    | inl y ↦
                        rw (a, b, c, y, apply_meta_status_update)
                          (λ e. absurd (let d : unknown_status ≡ handled = e in cc))
                    | inr f ↦
                        rw (a, b, c, f, apply_meta_status_update)
                          (λ _. (
                            move_messages-map 1 (strip k) cb s.messages one,
                            move_rows-map 20 (strip k) cb s.blast_rows s.blasts few there,
                          ))
                  ]
                ]
              ]
    ]
