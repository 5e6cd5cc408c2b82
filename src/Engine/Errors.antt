-- ===== src/Engine/Errors.antt =====
-- What the send job decides from an error: app/services/twilio_errors.py (the retryable
-- categories), app/services/campaign_provider.py (a rejected account), app/services/retry_backoff.py
-- (the delay) and the last branch of `send_campaign_recipient` (skipped or failed).
use ai_wa_chat_agent_be.Prelude.{
  ℕ, ◌+◌, ◌-◌, ◌*◌, ◌^◌, Bool, true, false, ◌&&◌, ◌||◌, min, max, ◌==◌, if◌then◌else◌,
}
use ai_wa_chat_agent_be.Prelude.Text.{Text, codes, lower, contains}
use ai_wa_chat_agent_be.Campaign.{RecipientStatus}
use ai_wa_chat_agent_be.Engine.Store.{Config}

-- ErrorCategory
pub data Category : Type 0 where
  retryable non_retryable consent_blocked window_closed configuration_error : Category
  provider_rate_limited invalid_recipient template_error media_error authentication_error : Category

-- An exception of the send, with what the handler asks of it: its class and codes, and the category
-- that `classify_bulk_send_error` gave.
pub record SendError : Type 0 where
  pub message : Text
  pub category : Category
  pub account_rejected : Bool  -- status code 401, or a text that `_ACCOUNT_BLOCKED` finds
  pub template_not_approved : Bool  -- a WhatsAppTemplateNotApprovedError
  pub approval_code : Bool  -- an error code of `is_template_approval_error_code`

unfoldable pub is_retryable_category : Category → Bool
is_retryable_category retryable = true
is_retryable_category provider_rate_limited = true
is_retryable_category _ = false

abbrev is_authentication : Category → Bool
is_authentication authentication_error = true
is_authentication _ = false

-- account_blocked_reason, less the reason
unfoldable pub account_blocked : SendError → Bool
account_blocked e = is_authentication e.category || e.account_rejected

abbrev is_window_closed : Category → Bool
is_window_closed window_closed = true
is_window_closed _ = false

abbrev is_consent_blocked : Category → Bool
is_consent_blocked consent_blocked = true
is_consent_blocked _ = false

abbrev is_template_error : Category → Bool
is_template_error template_error = true
is_template_error _ = false

-- WINDOW_CLOSED_ERROR, in lower case
abbrev window_closed_error : Text
window_closed_error = codes "whatsapp customer service window closed. use an approved template."

-- final_status, of an error that is not retried
unfoldable pub final_status : SendError → RecipientStatus
unfolding contains lower
final_status e =
    let err_l = lower e.message in
    if e.template_not_approved
      || e.approval_code
      || contains (codes "skipped_closed_window") err_l
      || is_window_closed e.category
      || contains window_closed_error err_l
      || is_consent_blocked e.category
      || contains (codes "blacklist") err_l
      || contains (codes "opt") err_l
      || (is_template_error e.category
          && (contains (codes "under review") err_l
              || contains (codes "by meta") err_l
              || contains (codes "template '") err_l
              || contains (codes "template_under_review") err_l))
    then RecipientStatus.skipped
    else RecipientStatus.failed

-- compute_retry_delay_seconds, in seconds; `rand` is what `random.randint(0, jitter)` drew.
unfoldable pub compute_retry_delay_seconds : Config → ℕ → ℕ → ℕ
compute_retry_delay_seconds cfg rand attempt =
    let base = max 1 cfg.retry_base in
    let max_s = max base cfg.retry_max in
    let exp = min max_s (base * 2 ^ (attempt - 1)) in
    let delay = exp + (if cfg.retry_jitter == 0 then 0 else rand) in min max_s (max 1 delay)
