-- ===== src/Campaign/Tests.antt =====
-- Runs of the campaign's counters and statuses on concrete recipients.
use ai_wa_chat_agent_be.Prelude.{◌≡◌, ◌≢◌, refl, List, [], ◌∷◌, count}
use ai_wa_chat_agent_be.Campaign.{CampaignStatus, RecipientStatus, is_open}

abbrev mixed : List RecipientStatus
mixed = RecipientStatus.read ∷ RecipientStatus.failed ∷ RecipientStatus.queued ∷ []

abbrev over : List RecipientStatus
over = RecipientStatus.read ∷ RecipientStatus.failed ∷ RecipientStatus.cancelled ∷ []

running_not_cancelled : CampaignStatus.running ≢ CampaignStatus.cancelled
running_not_cancelled e = cc

over_closed : count is_open over ≡ 0
unfolding is_open
over_closed = refl
