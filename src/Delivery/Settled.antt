-- ===== src/Delivery/Settled.antt =====
-- app/services/delivery_status.py, `build_status_update`, on a callback that is delivered twice.
use ai_wa_chat_agent_be.Prelude.{◌≡◌, inl, inr, false, none, some, arith, Bool-cases, Option-cases}
use ai_wa_chat_agent_be.Prelude.Text.{normal, normal_idem, text_eq_refl}
use ai_wa_chat_agent_be.Delivery.{
  Status, status_name, normalize_status, advances, should_apply_status, DeliveryDoc, set_fields,
  Callback, build_status_update, unknown_update, known_update, apply_callback,
}
use ai_wa_chat_agent_be.Delivery.Names.{normalize-name, status_eq_refl}
use ai_wa_chat_agent_be.Delivery.Monotone.{applied-status, held-status}

unknown_settled :
    (d : DeliveryDoc) (cb : Callback)
    → normalize_status (some cb.raw) ≡ none
    → unknown_update (apply_callback d cb) cb ≡ none
unfolding apply_callback build_status_update unknown_update set_fields
unknown_settled d cb e =
    rw (e, apply_callback, build_status_update)
      (ground (arith, normal_idem cb.raw, text_eq_refl (normal cb.raw)))

same_status_held : (s : Status) → should_apply_status (some (status_name s)) s ≡ false
unfolding should_apply_status advances
same_status_held s = rw (normalize-name, should_apply_status, status_eq_refl, advances)

known_settled :
    (d : DeliveryDoc) (s : Status) (cb : Callback)
    → normalize_status (some cb.raw) ≡ some s
    → known_update (apply_callback d cb) s cb ≡ none
unfolding known_update
known_settled d s cb e = elim (Bool-cases (should_apply_status d.status s)) [
  | inl h ↦ rw (applied-status d s cb e h, same_status_held s)
  | inr h ↦ rw (held-status d s cb e h, h)
]

-- After a callback was handled, the same callback builds no update: a redelivery, with a canonical
-- or an unknown status, writes nothing.
pub build_status_update-apply_callback :
    (d : DeliveryDoc) (cb : Callback) → build_status_update (apply_callback d cb) cb ≡ none
unfolding build_status_update
build_status_update-apply_callback d cb = elim (Option-cases (normalize_status (some cb.raw))) [
  | inl e ↦ rw (e, build_status_update) (unknown_settled d cb e)
  | inr (s, e) ↦ rw (e, build_status_update) (known_settled d s cb e)
]
