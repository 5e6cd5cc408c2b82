-- ===== src/Campaign/Finalize.antt =====
-- The status that a campaign ends in, against what became of its recipients.
use ai_wa_chat_agent_be.Prelude.{
  ◌+◌, ◌≡◌, refl, ◌≢◌, Bool, true, false, not, ◌&&◌, List, [], ◌∷◌, arith, ltb, ◌==◌, length, count,
  any, if◌then◌else◌,
}
use ai_wa_chat_agent_be.Campaign.{
  CampaignStatus, RecipientStatus, recipient_eq, is_open, status_counts, recount_campaign_fields,
  recount, finalize_status_from_counts,
}
use ai_wa_chat_agent_be.Campaign.Recount.{sum_counts-length, count-is_open}

-- Sent, or better.
unfoldable pub is_ok : RecipientStatus → Bool
is_ok RecipientStatus.sent = true
is_ok RecipientStatus.delivered = true
is_ok RecipientStatus.read = true
is_ok RecipientStatus.replied = true
is_ok _ = false

-- What the campaign came to, said of the recipients themselves.
pub outcome : List RecipientStatus → CampaignStatus
outcome rs =
    if any is_ok rs
    then (if count is_ok rs == length rs
        then CampaignStatus.completed
        else CampaignStatus.partially_completed)
    else if any (recipient_eq RecipientStatus.cancelled) rs
        && not (any (recipient_eq RecipientStatus.failed) rs)
    then CampaignStatus.cancelled
    else CampaignStatus.failed

any-eq-count {ℓ} : {A : Type ℓ} (p : A → Bool) (xs : List A) → any p xs ≡ ltb 0 (count p xs)
any-eq-count p [] = ground arith
any-eq-count p (x ∷ xs) = ground (arith, any-eq-count p xs)

count-is_ok :
    (rs : List RecipientStatus)
    → count is_ok rs
      ≡ status_counts rs RecipientStatus.sent
        + status_counts rs RecipientStatus.delivered
        + status_counts rs RecipientStatus.read
        + status_counts rs RecipientStatus.replied
unfolding status_counts is_ok
count-is_ok [] = omega arith
count-is_ok (RecipientStatus.pending ∷ rs) = omega (arith, count-is_ok rs)
count-is_ok (_ ∷ rs) = omega (arith, count-is_ok rs)

count-status :
    (s : RecipientStatus) (rs : List RecipientStatus)
    → count (recipient_eq s) rs ≡ status_counts rs s
unfolding status_counts
count-status s rs = refl

-- When no recipient is open and the campaign was not cancelled, it ends as `completed` if all were
-- sent, `partially_completed` if some were, `cancelled` if none was sent and none failed but some
-- were cancelled, and `failed` otherwise, as with no recipient at all.
pub finalize-recount :
    (status : CampaignStatus) (rs : List RecipientStatus)
    → status ≢ CampaignStatus.cancelled
    → count is_open rs ≡ 0
    → finalize_status_from_counts status (recount rs) ≡ outcome rs
unfolding finalize_status_from_counts outcome recount recount_campaign_fields
finalize-recount CampaignStatus.cancelled rs h e = absurd (h refl)
finalize-recount _ rs h e = ground (
  arith,
  any-eq-count is_ok rs,
  any-eq-count (recipient_eq RecipientStatus.cancelled) rs,
  any-eq-count (recipient_eq RecipientStatus.failed) rs,
  count-status RecipientStatus.cancelled rs,
  count-status RecipientStatus.failed rs,
  count-is_ok rs,
  count-is_open rs,
  sum_counts-length rs,
)
