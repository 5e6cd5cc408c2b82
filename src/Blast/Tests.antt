-- ===== src/Blast/Tests.antt =====
-- Runs of the blast's counters on concrete callbacks.
use ai_wa_chat_agent_be.Prelude.{none, some, [], ◌∷◌}
use ai_wa_chat_agent_be.Delivery.{Status, sent, delivered, status_name, DeliveryDoc}
use ai_wa_chat_agent_be.Delivery.Monotone.{doc_phase}
use ai_wa_chat_agent_be.Blast.{Blast, update_all}
use ai_wa_chat_agent_be.Blast.Counters.{Spends, update_all-Spends}
use ai_wa_chat_agent_be.Blast.Drift.{says}

abbrev three : Blast
three = record {
  total_recipients = 3;
  sent_count = 1;
  failed_count = 0;
  delivered_count = 0;
  read_count = 0;
  undelivered_count = 0;
  updated_at = none;
}

abbrev doc_with : Status → DeliveryDoc
doc_with s = record {
  status = some (status_name s);
  provider_status = none;
  status_updated_at = none;
  updated_at = none;
  error_code = none;
  error_message = none;
  error = none;
  sent_at = none;
  delivered_at = none;
  read_at = none;
  failed_at = none;
}

update_all-Spends_example :
    Spends three
      (doc_phase (doc_with sent))
      (update_all three (doc_with sent) (says delivered 4 ∷ says delivered 5 ∷ [])).0
      (doc_phase (update_all three (doc_with sent) (says delivered 4 ∷ says delivered 5 ∷ [])).1)
update_all-Spends_example =
    update_all-Spends three (doc_with sent) (says delivered 4 ∷ says delivered 5 ∷ [])
