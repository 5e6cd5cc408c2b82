-- ===== src/Reconcile/Sweep.antt =====
-- What the sweep leaves, and what becomes of a message that it gave up.
use ai_wa_chat_agent_be.Prelude.{
  ℕ, zero, suc, ◌-◌, ◌≡◌, refl, Bool, true, false, not, ◌&&◌, Option, List, [], ◌∷◌, arith, inl,
  inr, min, count, Bool-cases, Option-cases,
}
use ai_wa_chat_agent_be.Prelude.Text.{Text, text_eq, is_empty, is_one_of, is_one_of-transfer, strip}
use ai_wa_chat_agent_be.Engine.Store.{Recipient}
use ai_wa_chat_agent_be.Reconcile.{
  Outbound, Lookup, is_waiting, is_stale, is_confirmed, confirmations, confirm, give_up, reconcile,
  reconcile_stale_messages,
}

-- A confirmed status is not one of those that wait.
confirm-settled :
    (now : ℕ) (t : Text) (err : Option Text) (m : Outbound)
    → is_confirmed t ≡ true
    → not (is_waiting (confirm now t err m).doc) ≡ true
unfolding is_confirmed confirm is_waiting is_one_of text_eq
confirm-settled now t err m h =
    is_one_of-transfer (λ u. not (is_waiting (confirm now u err m).doc) ≡ true) t confirmations h
      (refl, (refl, (refl, (refl, (refl, tt)))))

reconcile-settled :
    (lookup : Lookup) (configured : Bool) (now cutoff : ℕ) (m : Outbound) (rs : List Recipient)
    → is_stale cutoff (reconcile lookup configured now m rs).0 ≡ false
unfolding reconcile give_up is_stale is_waiting is_one_of text_eq
reconcile-settled lookup configured now cutoff m rs =
    elim (Bool-cases (not (is_empty (strip m.twilio_sid)) && configured)) [
      | inr n ↦ rw (n, reconcile) refl
      | inl y ↦ elim (Option-cases (lookup (strip m.twilio_sid))) [
        | inl e ↦ rw (y, e, reconcile) refl
        | inr ((t, err), e) ↦ elim (Bool-cases (is_confirmed t)) [
          | inl c ↦ rw (y, e, c, reconcile) (ground (arith, confirm-settled now t err m c))
          | inr n ↦ rw (y, e, n, reconcile) refl
        ]
      ]
    ]

-- However Twilio answers, a sweep repairs as many stale messages as there are, up to its batch, and
-- leaves the others stale.
pub reconcile_stale_messages-clears :
    (lookup : Lookup) (configured : Bool) (now cutoff batch : ℕ) (ms : List Outbound)
    (rs : List Recipient)
    → let (after, recipients, repaired) =
        reconcile_stale_messages lookup configured now cutoff batch ms rs in
      (repaired ≡ min batch (count (is_stale cutoff) ms))
      × (count (is_stale cutoff) after ≡ count (is_stale cutoff) ms - batch)
unfolding reconcile_stale_messages
reconcile_stale_messages-clears lookup configured now cutoff batch [] rs =
    (omega arith, omega arith)
reconcile_stale_messages-clears lookup configured now cutoff zero (m ∷ ms) rs =
    (omega arith, omega arith)
reconcile_stale_messages-clears lookup configured now cutoff (suc batch) (m ∷ ms) rs =
    elim (Bool-cases (is_stale cutoff m)) [
      | inl y ↦
          let (n, l) =
            reconcile_stale_messages-clears lookup configured now cutoff batch ms
              (reconcile lookup configured now m rs).1 in
          let gone = reconcile-settled lookup configured now cutoff m rs in
          rw (y, reconcile_stale_messages) (ground (arith, n), ground (arith, l, gone))
      | inr k ↦
          let (n, l) =
            reconcile_stale_messages-clears lookup configured now cutoff (suc batch) ms rs in
          rw (k, reconcile_stale_messages) (ground (arith, n), ground (arith, l, k))
    ]
