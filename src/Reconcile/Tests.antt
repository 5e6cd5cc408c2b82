-- ===== src/Reconcile/Tests.antt =====
-- Two messages of one hour, and one that has just been queued.
use ai_wa_chat_agent_be.Prelude.{ℕ, ◌-◌, ◌≡◌, refl, true, none, some, List, [], ◌∷◌, count, min}
use ai_wa_chat_agent_be.Prelude.Text.{codes, is_one_of, text_eq, strip}
use ai_wa_chat_agent_be.Campaign.{RecipientStatus, recipient_eq}
use ai_wa_chat_agent_be.Engine.Store.{Recipient, update_one}
use ai_wa_chat_agent_be.Reconcile.{
  Outbound, Lookup, is_stale, is_confirmed, repair_recipient, reconcile, reconcile_stale_messages,
}
use ai_wa_chat_agent_be.Reconcile.Sweep.{reconcile_stale_messages-clears}

abbrev queued_at : ℕ → Outbound
queued_at t = record {
  doc = record {
    status = some (codes "queued");
    provider_status = none;
    status_updated_at = none;
    updated_at = none;
    error_code = none;
    error_message = none;
    error = none;
    sent_at = none;
    delivered_at = none;
    read_at = none;
    failed_at = none;
  };
  created_at = t;
  twilio_sid = codes "SM1";
  recipient_id = some 7;
  final_failure_reason = none;
  reconciled_at = none;
}

abbrev sent_recipient : Recipient
sent_recipient = record {
  id = 7;
  status = RecipientStatus.sent;
  attempt_count = 1;
  provider_message_id = none;
  provider_status = none;
  next_retry_at = none;
  sent_at = some 5;
  delivered_at = none;
  read_at = none;
  failed_at = none;
}

-- an account that answers nothing
abbrev silent : Lookup
silent sid = none

-- one that says of every message that it was read
abbrev all_read : Lookup
all_read sid = some (codes "read", none)

abbrev waiting : List Outbound
waiting = queued_at 5 ∷ queued_at 6 ∷ queued_at 90 ∷ []

gives_up_and_repairs :
    (reconcile_stale_messages silent true 100 40 20 waiting (sent_recipient ∷ [])).1
    ≡ record sent_recipient { status = RecipientStatus.failed } ∷ []
unfolding reconcile_stale_messages is_stale is_one_of text_eq reconcile strip repair_recipient
    update_one recipient_eq
gives_up_and_repairs = refl

keeps_when_confirmed :
    (reconcile_stale_messages all_read true 100 40 20 waiting (sent_recipient ∷ [])).1
    ≡ sent_recipient ∷ []
unfolding reconcile_stale_messages is_stale is_one_of text_eq reconcile strip is_confirmed
keeps_when_confirmed = refl

reconcile_stale_messages-clears_example :
    let (after, recipients, repaired) =
      reconcile_stale_messages silent true 100 40 1 waiting (sent_recipient ∷ []) in
    (repaired ≡ min 1 (count (is_stale 40) waiting))
    × (count (is_stale 40) after ≡ count (is_stale 40) waiting - 1)
reconcile_stale_messages-clears_example =
    reconcile_stale_messages-clears silent true 100 40 1 waiting (sent_recipient ∷ [])
