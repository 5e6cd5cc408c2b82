-- ===== src/Delivery/Monotone.antt =====
-- How far a message has come in the statuses of app/services/delivery_status.py.
use ai_wa_chat_agent_be.Prelude.{
  ℕ, ◌≡◌, ◌≢◌, max, ap, ◌⊎◌, inl, inr, true, false, Option, none, some, List, [], ◌∷◌, arith,
  if◌then◌else◌, Bool-cases, Option-cases,
}
use ai_wa_chat_agent_be.Prelude.Text.{Text}
use ai_wa_chat_agent_be.Delivery.{
  Status, queued, status_name, normalize_status, success_rank, is_failure_status, status_eq,
  advances, should_apply_status, DeliveryDoc, SetFields, set_fields, Callback, build_status_update,
  unknown_update, known_update, failure_fields, success_fields, apply_callback, apply_callbacks,
}
use ai_wa_chat_agent_be.Delivery.Names.{normalize-name}

-- How far a message has come: a failure is past every success, and an unknown text before all.
abbrev pub phase : Option Status → ℕ
phase none = 0
phase (some s) = if is_failure_status s then 100 else success_rank s

abbrev pub doc_phase : DeliveryDoc → ℕ
doc_phase d = phase (normalize_status d.status)

pub unknown-status :
    (d : DeliveryDoc) (cb : Callback)
    → normalize_status (some cb.raw) ≡ none
    → (apply_callback d cb).status ≡ d.status
unfolding apply_callback build_status_update unknown_update set_fields
unknown-status d cb e = rw (e, apply_callback, build_status_update) (ground arith)

pub held-status :
    (d : DeliveryDoc) (s : Status) (cb : Callback)
    → normalize_status (some cb.raw) ≡ some s
    → should_apply_status d.status s ≡ false
    → apply_callback d cb ≡ d
unfolding apply_callback build_status_update known_update
held-status d s cb e h = rw (e, apply_callback, build_status_update) (rw (h, known_update))

pub applied-status :
    (d : DeliveryDoc) (s : Status) (cb : Callback)
    → normalize_status (some cb.raw) ≡ some s
    → should_apply_status d.status s ≡ true
    → (apply_callback d cb).status ≡ some (status_name s)
unfolding apply_callback build_status_update known_update set_fields failure_fields success_fields
applied-status d s cb e h =
    rw (e, apply_callback, build_status_update) (rw (h, known_update) (ground arith))

-- What one callback can do to the stored status.
pub callback-status :
    (d : DeliveryDoc) (cb : Callback)
    → ((apply_callback d cb).status ≡ d.status)
      ⊎ ((s : Status) × (normalize_status (some cb.raw) ≡ some s)
          × (should_apply_status d.status s ≡ true)
          × ((apply_callback d cb).status ≡ some (status_name s)))
callback-status d cb = elim (Option-cases (normalize_status (some cb.raw))) [
  | inl e ↦ inl (unknown-status d cb e)
  | inr (s, e) ↦ elim (Bool-cases (should_apply_status d.status s)) [
    | inl h ↦ inr (s, e, h, applied-status d s cb e h)
    | inr h ↦ inl (ap (λ (x : DeliveryDoc). x.status) (held-status d s cb e h))
  ]
]

known_update-status :
    (d : DeliveryDoc) (s : Status) (cb : Callback) (u : SetFields)
    → known_update d s cb ≡ some u
    → (u.status ≡ some (status_name s)) × (should_apply_status d.status s ≡ true)
unfolding known_update failure_fields success_fields
known_update-status d s cb u h = ground arith

known_update-ne_none :
    (d : DeliveryDoc) (s : Status) (cb : Callback)
    → should_apply_status d.status s ≡ true
    → known_update d s cb ≢ none
unfolding known_update
known_update-ne_none d s cb h = ground arith

unknown_update-status :
    (d : DeliveryDoc) (cb : Callback) (u : SetFields)
    → unknown_update d cb ≡ some u
    → u.status ≡ none
unfolding unknown_update
unknown_update-status d cb u h = ground arith

-- What a built update does to the status.
pub build_status_update-status :
    (d : DeliveryDoc) (cb : Callback) (u : SetFields)
    → build_status_update d cb ≡ some u
    → (u.status ≡ none)
      ⊎ ((s : Status) × (normalize_status (some cb.raw) ≡ some s)
          × (u.status ≡ some (status_name s))
          × (should_apply_status d.status s ≡ true))
unfolding build_status_update
build_status_update-status d cb u h = elim (Option-cases (normalize_status (some cb.raw))) [
  | inl e ↦ inl (unknown_update-status d cb u (rw (e, build_status_update) at h))
  | inr (s, e) ↦
      let (a, b) = known_update-status d s cb u (rw (e, build_status_update) at h) in
      inr (s, e, a, b)
]

-- A callback that is applied builds an update that stores its status.
pub build-applied :
    (d : DeliveryDoc) (s : Status) (cb : Callback)
    → normalize_status (some cb.raw) ≡ some s
    → should_apply_status d.status s ≡ true
    → (u : SetFields) × (build_status_update d cb ≡ some u) × (u.status ≡ some (status_name s))
unfolding build_status_update
build-applied d s cb e h = elim (Option-cases (known_update d s cb)) [
  | inl held ↦ absurd (known_update-ne_none d s cb h held)
  | inr (u, k) ↦ (u, rw (e, build_status_update) k, (known_update-status d s cb u k).0)
]

phase-advances :
    (cur incoming : Status)
    → (if advances cur incoming then phase (some incoming) else phase (some cur))
      ≡ max (phase (some cur)) (phase (some incoming))
unfolding advances is_failure_status success_rank status_eq
phase-advances queued incoming = ground arith
phase-advances _ incoming = ground arith

-- Of two statuses `should_apply_status` leaves the one that is further.
pub phase-should_apply :
    (current : Option Text) (s : Status)
    → (if should_apply_status current s then phase (some s) else phase (normalize_status current))
      ≡ max (phase (normalize_status current)) (phase (some s))
unfolding should_apply_status
phase-should_apply current s = elim (Option-cases (normalize_status current)) [
  | inl e ↦ rw (e, should_apply_status) (omega arith)
  | inr (c, e) ↦ rw (e, should_apply_status) (phase-advances c s)
]

pub phase-callback :
    (d : DeliveryDoc) (cb : Callback)
    → doc_phase (apply_callback d cb) ≡ max (doc_phase d) (phase (normalize_status (some cb.raw)))
phase-callback d cb = elim (Option-cases (normalize_status (some cb.raw))) [
  | inl e ↦ rw (e, unknown-status d cb e) (omega arith)
  | inr (s, e) ↦ elim (Bool-cases (should_apply_status d.status s)) [
    | inl h ↦
        rw (e, applied-status d s cb e h, normalize-name) (rw h at (phase-should_apply d.status s))
    | inr h ↦ rw (e, held-status d s cb e h) (rw h at (phase-should_apply d.status s))
  ]
]

-- The phase of the furthest status that a list of callbacks names.
pub furthest : List Callback → ℕ
furthest [] = 0
furthest (cb ∷ cbs) = max (phase (normalize_status (some cb.raw))) (furthest cbs)

-- Whatever callbacks arrive, in whatever order and however often, the document ends in the furthest
-- phase among its own and theirs (its rank on the success path, 100 for a failure, 0 for a status
-- that is unknown).
pub phase-callbacks :
    (d : DeliveryDoc) (cbs : List Callback)
    → doc_phase (apply_callbacks d cbs) ≡ max (doc_phase d) (furthest cbs)
unfolding apply_callbacks furthest
phase-callbacks d [] = omega arith
phase-callbacks d (cb ∷ cbs) =
    omega (arith, phase-callbacks (apply_callback d cb) cbs, phase-callback d cb)
