-- ===== src/Dispatch/Tests.antt =====
-- A callback for a message of a blast.
use ai_wa_chat_agent_be.Prelude.{refl, false, none, some, [], ◌∷◌, arith}
use ai_wa_chat_agent_be.Prelude.Text.{codes, text_eq}
use ai_wa_chat_agent_be.Delivery.{DeliveryDoc, Callback}
use ai_wa_chat_agent_be.Blast.{Blast}
use ai_wa_chat_agent_be.Campaign.{CampaignStatus, recount}
use ai_wa_chat_agent_be.Engine.Store.{Store}
use ai_wa_chat_agent_be.Dispatch.{Documents, apply_twilio_status_callback}
use ai_wa_chat_agent_be.Dispatch.Pointwise.{IsPointwise, apply_twilio_status_callback-IsPointwise}

abbrev sent_doc : DeliveryDoc
sent_doc = record {
  status = some (codes "sent");
  provider_status = none;
  status_updated_at = none;
  updated_at = none;
  error_code = none;
  error_message = none;
  error = none;
  sent_at = some 3;
  delivered_at = none;
  read_at = none;
  failed_at = none;
}

abbrev delivered_callback : Callback
delivered_callback = record {
  raw = codes "delivered";
  error_code = none;
  error_message = none;
  now = 9;
}

abbrev idle : Store
idle = record {
  campaign = record {
    status = CampaignStatus.running;
    is_meta = false;
    counters = recount [];
    started_at = none;
    paused_at = none;
    cancelled_at = none;
    completed_at = none;
  };
  recipients = [];
  claims = [];
  calls = [];
  messages = [];
  enqueued = [];
}

abbrev one_blast : Blast
one_blast = record {
  total_recipients = 2;
  sent_count = 2;
  failed_count = 0;
  delivered_count = 0;
  read_count = 0;
  undelivered_count = 0;
  updated_at = none;
}

abbrev documents : Documents
documents = record {
  messages =
      record { key = codes "SM1"; doc = sent_doc }
      ∷ record { key = codes "SM2"; doc = sent_doc }
      ∷ [];
  blast_rows =
      record { key = codes "SM2"; blast_id = 4; doc = sent_doc }
      ∷ record { key = codes "SM1"; blast_id = 4; doc = sent_doc }
      ∷ [];
  blasts = λ i. some one_blast;
  campaign_keys = [];
  engine = idle;
}

apply_twilio_status_callback-IsPointwise_example :
    IsPointwise
      (codes "SM1")
      delivered_callback
      documents
      (apply_twilio_status_callback (codes "SM1") delivered_callback documents).0
unfolding text_eq
apply_twilio_status_callback-IsPointwise_example =
    apply_twilio_status_callback-IsPointwise (codes "SM1") delivered_callback documents
      (omega arith) (omega arith) (refl, (refl, tt))
