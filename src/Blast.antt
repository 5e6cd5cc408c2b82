-- ===== src/Blast.antt =====
-- app/services/status_callback.py, `_update_blast_recipient`: a delivery callback for a recipient of
-- a blast moves the recipient and the counters of its blast.
pub mod Counters
pub mod Drift
mod Tests
use ai_wa_chat_agent_be.Prelude.{
  ℕ, ◌+◌, Bool, true, false, not, ◌&&◌, ◌||◌, Option, none, some, List, [], ◌∷◌, ltb, if◌then◌else◌,
}
use ai_wa_chat_agent_be.Delivery.{
  Status, queued, accepted, sending, sent, delivered, read, undelivered, status_eq,
  is_failure_status, normalize_status, DeliveryDoc, SetFields, set_fields, Callback,
  build_status_update,
}

-- The parent, a document of `blast_campaigns`; a counter that it lacks is 0.
pub record Blast : Type 0 where
  pub total_recipients : ℕ
  pub sent_count : ℕ
  pub failed_count : ℕ
  pub delivered_count : ℕ
  pub read_count : ℕ
  pub undelivered_count : ℕ
  pub updated_at : Option ℕ

-- A status as the handler compares it: `none` is no status or a text that is not canonical, which
-- is in none of the handler's tuples.
abbrev pub Shown : Type 0
Shown = Option Status

abbrev pub is : Status → Shown → Bool
is s none = false
is s (some t) = status_eq t s

-- ("sent", "delivered", "read")
unfoldable pub is_sent : Shown → Bool
is_sent (some sent) = true
is_sent (some delivered) = true
is_sent (some read) = true
is_sent _ = false

-- ("delivered", "read")
unfoldable pub is_delivered : Shown → Bool
is_delivered (some delivered) = true
is_delivered (some read) = true
is_delivered _ = false

-- ("queued", "accepted", "sending")
unfoldable pub is_handed_over : Shown → Bool
is_handed_over (some queued) = true
is_handed_over (some accepted) = true
is_handed_over (some sending) = true
is_handed_over _ = false

unfoldable pub is_failure : Shown → Bool
is_failure none = false
is_failure (some s) = is_failure_status s

-- metric_inc, 0 for a key that it does not hold
pub record Increments : Type 0 where
  pub failed : ℕ
  pub sent : ℕ
  pub delivered : ℕ
  pub read : ℕ
  pub undelivered : ℕ

abbrev one_if : Bool → ℕ
one_if b = if b then 1 else 0

unfoldable pub metric_inc : Blast → Shown → Shown → Increments
unfolding is_sent is_delivered is_handed_over is_failure is_failure_status status_eq
metric_inc b old new = record {
  failed = one_if (is_failure new && not (is_failure old));
  sent =
      if is_sent new && not (is_sent old || is_handed_over old)
      then 1
      else one_if (is_delivered new && is_handed_over old && ltb b.sent_count b.total_recipients);
  delivered = one_if (is_delivered new && not (is_delivered old));
  read = one_if (is read new && not (is read old));
  undelivered = one_if (is undelivered new && not (is undelivered old));
}

-- `$inc` of the counters, and `$set` of the time where any is incremented
unfoldable pub inc_counters : Blast → Increments → ℕ → Blast
inc_counters b m now = record b {
  sent_count = b.sent_count + m.sent;
  failed_count = b.failed_count + m.failed;
  delivered_count = b.delivered_count + m.delivered;
  read_count = b.read_count + m.read;
  undelivered_count = b.undelivered_count + m.undelivered;
  updated_at =
      if ltb 0 (m.sent + m.failed + m.delivered + m.read + m.undelivered)
      then some now
      else b.updated_at;
}

abbrev pub new_status : SetFields → Shown → Shown
new_status u old = elim u.status [ none ↦ old | some t ↦ normalize_status (some t) ]

-- The handler on a recipient and the blast that was found for it: the two after it, and `updated`.
-- The event that it publishes is not modelled.
unfoldable pub update_found : Blast → DeliveryDoc → Callback → Blast × DeliveryDoc × Bool
update_found b d cb =
    let old = normalize_status d.status in
    elim (build_status_update d cb) [
      | none ↦ (b, d, false)
      | some u ↦ (inc_counters b (metric_inc b old (new_status u old)) cb.now, set_fields d u, true)
    ]

-- `none` for a recipient with no valid `blast_id`, or whose blast is gone.
unfoldable pub update_blast_recipient :
    Option Blast → DeliveryDoc → Callback → Option Blast × DeliveryDoc × Bool
unfolding update_found
update_blast_recipient none d cb = (none, d, false)
update_blast_recipient (some b) d cb =
    let (b', d', updated) = update_found b d cb in (some b', d', updated)

-- The callbacks of one recipient, one after the other.
unfoldable pub update_all : Blast → DeliveryDoc → List Callback → Blast × DeliveryDoc
update_all b d [] = (b, d)
update_all b d (cb ∷ cbs) = update_all (update_found b d cb).0 (update_found b d cb).1 cbs
