-- ===== src/Campaign.antt =====
-- app/models/campaign.py and app/services/campaign_service.py: the statuses of a campaign and of its
-- recipients, the counters of a campaign and the status that it ends in. A recipient's status is one
-- of the vocabulary that every write of the source uses.
pub mod Apply
pub mod Recount
pub mod Finalize
mod Tests
use ai_wa_chat_agent_be.Prelude.{
  ℕ, ◌+◌, Bool, true, false, not, ◌&&◌, ◌||◌, Option, none, some, List, [], ◌∷◌, ltb, leb, ◌==◌,
  if◌then◌else◌, count,
}

-- CampaignStatus
pub data CampaignStatus : Type 0 where
  draft scheduled queued running paused completed partially_completed failed cancelled :
      CampaignStatus

pub CampaignStatus-discrete : Discrete CampaignStatus
CampaignStatus-discrete = hlevel

-- TERMINAL_STATUSES
unfoldable pub is_terminal : CampaignStatus → Bool
is_terminal completed = true
is_terminal partially_completed = true
is_terminal failed = true
is_terminal cancelled = true
is_terminal _ = false

-- The keys of _RECIPIENT_RANK
pub data RecipientStatus : Type 0 where
  pending queued processing retrying sent delivered read replied failed skipped cancelled :
      RecipientStatus

pub RecipientStatus-discrete : Discrete RecipientStatus
RecipientStatus-discrete = hlevel

unfoldable pub recipient_eq : RecipientStatus → RecipientStatus → Bool
unfolding RecipientStatus-discrete
recipient_eq a b = elim (RecipientStatus-discrete a b) [ yes _ ↦ true | no _ ↦ false ]

-- RECIPIENT_OPEN
unfoldable pub is_open : RecipientStatus → Bool
is_open RecipientStatus.pending = true
is_open RecipientStatus.queued = true
is_open RecipientStatus.processing = true
is_open RecipientStatus.retrying = true
is_open _ = false

-- _RECIPIENT_RANK
unfoldable pub recipient_rank : RecipientStatus → ℕ
recipient_rank RecipientStatus.pending = 0
recipient_rank RecipientStatus.queued = 10
recipient_rank RecipientStatus.processing = 20
recipient_rank RecipientStatus.retrying = 25
recipient_rank RecipientStatus.sent = 40
recipient_rank RecipientStatus.delivered = 50
recipient_rank RecipientStatus.read = 60
recipient_rank RecipientStatus.replied = 70
recipient_rank RecipientStatus.failed = 100
recipient_rank RecipientStatus.skipped = 100
recipient_rank RecipientStatus.cancelled = 100

-- `s in (…)`, with the empty text (`none`) in no tuple
abbrev pub is_one : Option RecipientStatus → List RecipientStatus → Bool
is_one none ts = false
is_one (some s) [] = false
is_one (some s) (t ∷ ts) = recipient_eq s t || is_one (some s) ts

abbrev pub rank_or_0 : Option RecipientStatus → ℕ
rank_or_0 none = 0
rank_or_0 (some s) = recipient_rank s

-- The guards at the head of `recipient_should_apply`, each of which refuses.
unfoldable pub refused : Option RecipientStatus → RecipientStatus → Bool
refused cur incoming =
    is_one cur (incoming ∷ [])
    || (is_one cur (RecipientStatus.replied ∷ [])
        && is_one (some incoming)
            (RecipientStatus.sent ∷ RecipientStatus.delivered ∷ RecipientStatus.read ∷ []))
    || (is_one cur (RecipientStatus.read ∷ [])
        && is_one (some incoming) (
            RecipientStatus.sent ∷ RecipientStatus.delivered ∷ RecipientStatus.queued
            ∷ RecipientStatus.processing ∷ []))
    || (is_one cur (RecipientStatus.delivered ∷ [])
        && is_one (some incoming)
            (RecipientStatus.sent ∷ RecipientStatus.queued ∷ RecipientStatus.processing ∷ []))
    || (is_one cur
          (RecipientStatus.failed ∷ RecipientStatus.skipped ∷ RecipientStatus.cancelled ∷ [])
        && not (
            is_one (some incoming)
              (RecipientStatus.retrying ∷ RecipientStatus.queued ∷ RecipientStatus.pending ∷ []))
        && is_one (some incoming)
            (RecipientStatus.sent ∷ RecipientStatus.delivered ∷ RecipientStatus.read ∷ []))

-- `current` is `none` where the document has no status, or an empty one.
unfoldable pub recipient_should_apply : Option RecipientStatus → RecipientStatus → Bool
unfolding refused recipient_eq recipient_rank
recipient_should_apply cur incoming =
    if refused cur incoming
    then false
    else if recipient_eq incoming RecipientStatus.failed
        && is_one cur (
            RecipientStatus.sent ∷ RecipientStatus.delivered ∷ RecipientStatus.read
            ∷ RecipientStatus.replied ∷ [])
    then true
    else if recipient_eq incoming RecipientStatus.replied
    then not (is_one cur (RecipientStatus.cancelled ∷ RecipientStatus.skipped ∷ []))
    else leb (rank_or_0 cur) (recipient_rank incoming)
      || is_one (some incoming)
          (RecipientStatus.failed ∷ RecipientStatus.skipped ∷ RecipientStatus.cancelled ∷ [])

-- status_counts: how many recipients have each status (`$group` by status)
unfoldable pub status_counts : List RecipientStatus → RecipientStatus → ℕ
unfolding recipient_eq
status_counts rs s = count (recipient_eq s) rs

-- sum(counts.values())
abbrev pub sum_counts : (RecipientStatus → ℕ) → ℕ
sum_counts n =
    n RecipientStatus.pending
    + n RecipientStatus.queued
    + n RecipientStatus.processing
    + n RecipientStatus.retrying
    + n RecipientStatus.sent
    + n RecipientStatus.delivered
    + n RecipientStatus.read
    + n RecipientStatus.replied
    + n RecipientStatus.failed
    + n RecipientStatus.skipped
    + n RecipientStatus.cancelled

-- The counters of a campaign, less the float `progress_percentage`.
pub record Counters : Type 0 where
  pub total_recipients : ℕ
  pub queued_count : ℕ
  pub processing_count : ℕ
  pub sent_count : ℕ
  pub delivered_count : ℕ
  pub read_count : ℕ
  pub failed_count : ℕ
  pub skipped_count : ℕ
  pub cancelled_count : ℕ
  pub replied_count : ℕ

unfoldable pub recount_campaign_fields : (RecipientStatus → ℕ) → ℕ → Counters
recount_campaign_fields n total = record {
  total_recipients = total;
  queued_count = n RecipientStatus.queued + n RecipientStatus.pending + n RecipientStatus.retrying;
  processing_count = n RecipientStatus.processing;
  sent_count =
      n RecipientStatus.sent
      + n RecipientStatus.delivered
      + n RecipientStatus.read
      + n RecipientStatus.replied;
  delivered_count =
      n RecipientStatus.delivered + n RecipientStatus.read + n RecipientStatus.replied;
  read_count = n RecipientStatus.read + n RecipientStatus.replied;
  failed_count = n RecipientStatus.failed;
  skipped_count = n RecipientStatus.skipped;
  cancelled_count = n RecipientStatus.cancelled;
  replied_count = n RecipientStatus.replied;
}

-- Group, sum and recount, as every caller does.
unfoldable pub recount : List RecipientStatus → Counters
unfolding recount_campaign_fields status_counts
recount rs = recount_campaign_fields (status_counts rs) (sum_counts (status_counts rs))

abbrev is_cancelled : CampaignStatus → Bool
is_cancelled cancelled = true
is_cancelled _ = false

unfoldable pub finalize_status_from_counts : CampaignStatus → Counters → CampaignStatus
finalize_status_from_counts status c =
    if is_cancelled status
    then cancelled
    else if c.total_recipients == 0
    then failed
    else if ltb 0 c.cancelled_count && c.sent_count == 0 && c.failed_count == 0
    then cancelled
    else if c.sent_count == 0
        && leb c.total_recipients (c.failed_count + c.skipped_count + c.cancelled_count)
    then failed
    else if ltb 0 c.sent_count
        && (ltb 0 c.failed_count || ltb 0 c.skipped_count || ltb 0 c.cancelled_count)
    then partially_completed
    else completed
