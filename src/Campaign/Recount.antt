-- ===== src/Campaign/Recount.antt =====
-- The counters that `recount_campaign_fields` writes, against the recipients that they count.
use ai_wa_chat_agent_be.Prelude.{◌+◌, ◌≤◌, ◌≡◌, List, [], ◌∷◌, arith, length, count}
use ai_wa_chat_agent_be.Campaign.{
  RecipientStatus, is_open, status_counts, sum_counts, recount_campaign_fields, recount,
}

sum_counts-cons :
    (r : RecipientStatus) (rs : List RecipientStatus)
    → sum_counts (status_counts (r ∷ rs)) ≡ sum_counts (status_counts rs) + 1
unfolding status_counts
sum_counts-cons RecipientStatus.pending rs = omega arith
sum_counts-cons _ rs = omega arith

-- Each recipient stands in one group.
pub sum_counts-length : (rs : List RecipientStatus) → sum_counts (status_counts rs) ≡ length rs
unfolding status_counts
sum_counts-length [] = omega arith
sum_counts-length (r ∷ rs) = omega (arith, sum_counts-cons r rs, sum_counts-length rs)

-- `count_documents` of the open recipients, by the groups.
pub count-is_open :
    (rs : List RecipientStatus)
    → count is_open rs
      ≡ status_counts rs RecipientStatus.pending
        + status_counts rs RecipientStatus.queued
        + status_counts rs RecipientStatus.processing
        + status_counts rs RecipientStatus.retrying
unfolding status_counts is_open
count-is_open [] = omega arith
count-is_open (RecipientStatus.pending ∷ rs) = omega (arith, count-is_open rs)
count-is_open (_ ∷ rs) = omega (arith, count-is_open rs)

-- The counters partition the recipients: those waiting, in work, sent or better, failed, skipped and
-- cancelled add up to their number, and waiting and in work to the open ones; of the sent ones the
-- delivered, of these the read, and of these the replied are a part.
pub recount-partition :
    (rs : List RecipientStatus)
    → let c = recount rs in
      (c.total_recipients ≡ length rs)
      × (c.queued_count + c.processing_count + c.sent_count + c.failed_count + c.skipped_count
            + c.cancelled_count
          ≡ length rs)
      × (c.queued_count + c.processing_count ≡ count is_open rs)
      × (c.delivered_count ≤ c.sent_count)
      × (c.read_count ≤ c.delivered_count)
      × (c.replied_count ≤ c.read_count)
unfolding recount recount_campaign_fields
recount-partition rs = omega (arith, sum_counts-length rs, count-is_open rs)
