-- ===== src/Delivery/Tests.antt =====
-- Runs of the delivery statuses on concrete callbacks.
use ai_wa_chat_agent_be.Prelude.{ℕ, ◌≡◌, refl, max, none, some, [], ◌∷◌, arith, String}
use ai_wa_chat_agent_be.Prelude.Text.{codes}
use ai_wa_chat_agent_be.Delivery.Names.{normalize-name}
use ai_wa_chat_agent_be.Delivery.{
  queued, status_name, success_rank, is_failure_status, DeliveryDoc, Callback, apply_callbacks,
}
use ai_wa_chat_agent_be.Delivery.Monotone.{doc_phase, furthest, phase-callbacks}
use ai_wa_chat_agent_be.Delivery.Stamps.{IsStamped, StampsKept, callbacks-IsStamped}

abbrev queued_doc : DeliveryDoc
queued_doc = record {
  status = some (status_name queued);
  provider_status = none;
  status_updated_at = none;
  updated_at = none;
  error_code = none;
  error_message = none;
  error = none;
  sent_at = none;
  delivered_at = none;
  read_at = none;
  failed_at = none;
}

abbrev says : String → ℕ → Callback
says raw now = record { raw = codes raw; error_code = none; error_message = none; now = now }

phase-callbacks_example :
    doc_phase (apply_callbacks queued_doc (says "delivered" 5 ∷ says "sent" 6 ∷ []))
    ≡ max (doc_phase queued_doc) (furthest (says "delivered" 5 ∷ says "sent" 6 ∷ []))
phase-callbacks_example = phase-callbacks queued_doc (says "delivered" 5 ∷ says "sent" 6 ∷ [])

queued_doc-phase : doc_phase queued_doc ≡ 10
unfolding success_rank is_failure_status
queued_doc-phase = rw (normalize-name queued) refl

queued_doc-IsStamped : IsStamped queued_doc
queued_doc-IsStamped = record {
  sent = λ lo hi. ground (arith, queued_doc-phase);
  delivered = λ lo hi. ground (arith, queued_doc-phase);
  read = λ lo hi. ground (arith, queued_doc-phase);
  failed = λ lo. ground (arith, queued_doc-phase);
}

callbacks-IsStamped_example :
    IsStamped (apply_callbacks queued_doc (says "read" 7 ∷ []))
    × StampsKept queued_doc (apply_callbacks queued_doc (says "read" 7 ∷ []))
callbacks-IsStamped_example =
    callbacks-IsStamped queued_doc (says "read" 7 ∷ []) queued_doc-IsStamped
