-- ===== src/Delivery/Stamps.antt =====
-- The milestones that app/services/delivery_status.py stamps: sent, delivered, read and failed.
use ai_wa_chat_agent_be.Prelude.{
  ℕ, ◌≤◌, ◌<◌, ◌≡◌, inl, inr, true, Option, none, some, List, [], ◌∷◌, arith, is_some, Bool-cases,
  Option-cases,
}
use ai_wa_chat_agent_be.Delivery.{
  Status, queued, normalize_status, success_rank, is_failure_status, status_eq, should_apply_status,
  DeliveryDoc, set_fields, Callback, build_status_update, unknown_update, known_update,
  failure_fields, success_fields, apply_callback, apply_callbacks,
}
use ai_wa_chat_agent_be.Delivery.Names.{normalize-name}
use ai_wa_chat_agent_be.Delivery.Monotone.{
  phase, doc_phase, held-status, applied-status, unknown-status,
}

abbrev pub Kept : Option ℕ → Option ℕ → Type 0
Kept old new = (t : ℕ) → old ≡ some t → new ≡ some t

-- No time that `a` holds is another in `b`.
pub record StampsKept (a b : DeliveryDoc) : Type 0 where
  pub sent : Kept a.sent_at b.sent_at
  pub delivered : Kept a.delivered_at b.delivered_at
  pub read : Kept a.read_at b.read_at
  pub failed : Kept a.failed_at b.failed_at

callback-StampsKept : (d : DeliveryDoc) (cb : Callback) → StampsKept d (apply_callback d cb)
unfolding apply_callback build_status_update unknown_update known_update set_fields failure_fields
    success_fields
callback-StampsKept d cb = record {
  sent = λ t h. ground arith;
  delivered = λ t h. ground arith;
  read = λ t h. ground arith;
  failed = λ t h. ground arith;
}

-- Every status that a document has passed on the success path is stamped, and so is a failure.
pub record IsStamped (d : DeliveryDoc) : Type 0 where
  pub sent : 40 ≤ doc_phase d → doc_phase d < 100 → is_some d.sent_at ≡ true
  pub delivered : 50 ≤ doc_phase d → doc_phase d < 100 → is_some d.delivered_at ≡ true
  pub read : 60 ≤ doc_phase d → doc_phase d < 100 → is_some d.read_at ≡ true
  pub failed : 100 ≤ doc_phase d → is_some d.failed_at ≡ true

-- What is due at the phase `p`.
abbrev Due : DeliveryDoc → ℕ → Type 0
Due d p =
    (40 ≤ p → p < 100 → is_some d.sent_at ≡ true)
    × (50 ≤ p → p < 100 → is_some d.delivered_at ≡ true)
    × (60 ≤ p → p < 100 → is_some d.read_at ≡ true)
    × (100 ≤ p → is_some d.failed_at ≡ true)

applied-Due :
    (d : DeliveryDoc) (s : Status) (cb : Callback)
    → normalize_status (some cb.raw) ≡ some s
    → should_apply_status d.status s ≡ true
    → Due (apply_callback d cb) (phase (some s))
unfolding apply_callback build_status_update known_update set_fields failure_fields success_fields
    is_failure_status success_rank status_eq
applied-Due d queued cb e h =
    rw (e, apply_callback, build_status_update) (rw (h, known_update) (ground arith))
applied-Due d _ cb e h =
    rw (e, apply_callback, build_status_update) (rw (h, known_update) (ground arith))

IsStamped-of_Due : (d : DeliveryDoc) {p : ℕ} → doc_phase d ≡ p → Due d p → IsStamped d
IsStamped-of_Due d e (a, b, c, f) = record {
  sent = λ lo hi. a (omega arith) (omega arith);
  delivered = λ lo hi. b (omega arith) (omega arith);
  read = λ lo hi. c (omega arith) (omega arith);
  failed = λ lo. f (omega arith);
}

unknown-IsStamped :
    (d : DeliveryDoc) (cb : Callback)
    → normalize_status (some cb.raw) ≡ none
    → IsStamped d
    → IsStamped (apply_callback d cb)
unfolding apply_callback build_status_update unknown_update set_fields
unknown-IsStamped d cb e st =
    IsStamped-of_Due (apply_callback d cb) {p = doc_phase d} (rw (unknown-status d cb e)) (
      rw (e, apply_callback, build_status_update)
        (ground (arith, st.sent, st.delivered, st.read, st.failed)))

callback-IsStamped :
    (d : DeliveryDoc) (cb : Callback) → IsStamped d → IsStamped (apply_callback d cb)
callback-IsStamped d cb st = elim (Option-cases (normalize_status (some cb.raw))) [
  | inl e ↦ unknown-IsStamped d cb e st
  | inr (s, e) ↦ elim (Bool-cases (should_apply_status d.status s)) [
    | inl h ↦
        IsStamped-of_Due (apply_callback d cb) (rw (applied-status d s cb e h, normalize-name))
          (applied-Due d s cb e h)
    | inr h ↦ rw (held-status d s cb e h) st
  ]
]

-- A document that is stamped for all that it has passed stays so under every list of callbacks, and
-- no time that was ever stamped is changed by a later callback.
pub callbacks-IsStamped :
    (d : DeliveryDoc) (cbs : List Callback)
    → IsStamped d
    → IsStamped (apply_callbacks d cbs) × StampsKept d (apply_callbacks d cbs)
unfolding apply_callbacks
callbacks-IsStamped d [] st =
    (st, record { sent = λ t h. h; delivered = λ t h. h; read = λ t h. h; failed = λ t h. h })
callbacks-IsStamped d (cb ∷ cbs) st =
    let (st', kept) = callbacks-IsStamped (apply_callback d cb) cbs (callback-IsStamped d cb st) in
    let first = callback-StampsKept d cb in
    (
      st',
      record {
        sent = λ t h. kept.sent t (first.sent t h);
        delivered = λ t h. kept.delivered t (first.delivered t h);
        read = λ t h. kept.read t (first.read t h);
        failed = λ t h. kept.failed t (first.failed t h);
      },
    )
