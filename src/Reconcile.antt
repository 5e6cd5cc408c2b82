-- ===== src/Reconcile.antt =====
-- app/services/reconciliation.py: the sweep over outbound messages that wait too long for a status, in
-- the order of `created_at`. `lookup` is what Twilio answers about an id, its status and its error, and
-- `none` where it fails; `batch` is the size that the code has raised to 1. A recipient's
-- `error_message` is not modelled.
pub mod Sweep
mod Tests
use ai_wa_chat_agent_be.Prelude.{
  ℕ, zero, suc, ◌+◌, ◌-◌, Bool, true, false, not, ◌&&◌, ◌||◌, Option, none, some, List, [], ◌∷◌,
  ltb, ◌==◌, if◌then◌else◌, take,
}
use ai_wa_chat_agent_be.Prelude.Text.{Text, codes, text_eq, is_empty, is_one_of, or_text, strip}
use ai_wa_chat_agent_be.Delivery.{DeliveryDoc}
use ai_wa_chat_agent_be.Campaign.{RecipientStatus}
use ai_wa_chat_agent_be.Engine.Store.{Recipient, update_one, has_id, has_status}

pub record Outbound : Type 0 where
  pub doc : DeliveryDoc
  pub created_at : ℕ
  pub twilio_sid : Text
  pub recipient_id : Option ℕ  -- the campaign's recipient, if it is linked to one
  pub final_failure_reason : Option Text
  pub reconciled_at : Option ℕ

abbrev pub Lookup : Type 0
Lookup = Text → Option (Text × Option Text)

abbrev status_text : DeliveryDoc → Text
status_text d = or_text d.status []

-- ("queued", "sending", "accepted")
unfoldable pub is_waiting : DeliveryDoc → Bool
is_waiting d = is_one_of (status_text d) (codes "queued" ∷ codes "sending" ∷ codes "accepted" ∷ [])

-- the query
unfoldable pub is_stale : ℕ → Outbound → Bool
unfolding is_waiting
is_stale cutoff m = is_waiting m.doc && ltb m.created_at cutoff

abbrev pub confirmations : List Text
confirmations =
    codes "delivered" ∷ codes "read" ∷ codes "sent" ∷ codes "failed" ∷ codes "undelivered" ∷ []

unfoldable pub is_confirmed : Text → Bool
is_confirmed t = is_one_of t confirmations

abbrev filled : Text → Option Text
filled t = if is_empty t then none else some t

-- the write of a status that Twilio confirms
unfoldable pub confirm : ℕ → Text → Option Text → Outbound → Outbound
confirm now new_status err m =
    let app_status =
      if text_eq new_status (codes "undelivered") then codes "failed" else new_status in
    record m {
      doc = record (m.doc) {
        status = some app_status;
        provider_status = some new_status;
        error = filled (take 500 (or_text err (or_text m.doc.error [])));
      };
      final_failure_reason = if text_eq app_status (codes "failed") then err else none;
      reconciled_at = some now;
    }

-- the write without one
unfoldable pub give_up : ℕ → Outbound → Outbound
give_up now m = record m {
  doc = record (m.doc) {
    status = some (codes "failed");
    error = some (codes "Message stale — marked failed by reconciliation");
  };
  final_failure_reason = some (codes "stale_timeout");
  reconciled_at = some now;
}

-- the repair of the linked recipient
unfoldable pub repair_recipient : ℕ → Option ℕ → List Recipient → List Recipient
repair_recipient now none rs = rs
repair_recipient now (some rid) rs =
    update_one
      (λ r.
        has_id rid r
        && (has_status RecipientStatus.processing r
            || has_status RecipientStatus.queued r
            || has_status RecipientStatus.sent r))
      (λ r. record r { status = RecipientStatus.failed }) rs

-- One message, with the recipients of the campaign.
unfoldable pub reconcile : Lookup → Bool → ℕ → Outbound → List Recipient → Outbound × List Recipient
reconcile lookup configured now m rs =
    let sid = strip m.twilio_sid in
    let failed : Outbound × List Recipient =
      (give_up now m, repair_recipient now m.recipient_id rs) in
    if not (is_empty sid) && configured
    then elim (lookup sid) [
      | none ↦ failed
      | some answer ↦
          if is_confirmed answer.0 then (confirm now answer.0 answer.1 m, rs) else failed
    ]
    else failed

-- reconcile_stale_messages, with the batch that is left: the messages, the recipients, and how many
-- were repaired. Nothing else writes while it runs.
unfoldable pub reconcile_stale_messages :
    Lookup → Bool → ℕ → ℕ → ℕ → List Outbound → List Recipient → List Outbound × List Recipient × ℕ
reconcile_stale_messages lookup configured now cutoff batch [] rs = ([], rs, 0)
reconcile_stale_messages lookup configured now cutoff zero (m ∷ ms) rs = (m ∷ ms, rs, 0)
reconcile_stale_messages lookup configured now cutoff (suc batch) (m ∷ ms) rs =
    let (n, repaired) = reconcile lookup configured now m rs in
    let (ns, after, count) =
      reconcile_stale_messages lookup configured now cutoff batch ms repaired in
    let (kept, same, rest) =
      reconcile_stale_messages lookup configured now cutoff (suc batch) ms rs in
    if is_stale cutoff m then (n ∷ ns, after, suc count) else (m ∷ kept, same, rest)
