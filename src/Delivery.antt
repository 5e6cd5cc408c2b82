-- ===== src/Delivery.antt =====
-- app/services/delivery_status.py: the canonical delivery statuses and the update that a provider's
-- callback makes of a stored message. A time is the number of its instant; a key that a document
-- lacks and a key that holds `None` are both `none`, which is how the source reads them (`.get`).
pub mod Names
pub mod Monotone
pub mod Settled
pub mod Stamps
mod Tests
use ai_wa_chat_agent_be.Prelude.{
  ℕ, Bool, true, false, not, ◌&&◌, Option, none, some, List, [], ◌∷◌, ltb, leb, if◌then◌else◌,
  or_else, override, is_some, take,
}
use ai_wa_chat_agent_be.Prelude.Text.{Text, codes, is_empty, lookup_text, normal, strip, text_eq}

-- CANONICAL_STATUSES
pub data Status : Type 0 where
  queued accepted sending sent delivered read failed undelivered canceled : Status

pub Status-discrete : Discrete Status
Status-discrete = hlevel

unfoldable pub status_name : Status → Text
status_name queued = codes "queued"
status_name accepted = codes "accepted"
status_name sending = codes "sending"
status_name sent = codes "sent"
status_name delivered = codes "delivered"
status_name read = codes "read"
status_name failed = codes "failed"
status_name undelivered = codes "undelivered"
status_name canceled = codes "canceled"

abbrev canonical_statuses : List (Text × Status)
canonical_statuses =
    (codes "queued", queued)
    ∷ (codes "accepted", accepted)
    ∷ (codes "sending", sending)
    ∷ (codes "sent", sent)
    ∷ (codes "delivered", delivered)
    ∷ (codes "read", read)
    ∷ (codes "failed", failed)
    ∷ (codes "undelivered", undelivered)
    ∷ (codes "canceled", canceled)
    ∷ []

-- _ALIASES
abbrev aliases : List (Text × Text)
aliases = (codes "cancelled", codes "canceled") ∷ (codes "receiving", codes "accepted") ∷ []

canonical : Text → Option Status
unfolding lookup_text
canonical value =
    if is_empty value
    then none
    else lookup_text (or_else (lookup_text value aliases) value) canonical_statuses

unfoldable pub normalize_status : Option Text → Option Status
unfolding canonical normal
normalize_status none = none
normalize_status (some raw) = canonical (normal raw)

-- _SUCCESS_RANK, with `.get(…, 0)` for the failures
unfoldable pub success_rank : Status → ℕ
success_rank queued = 10
success_rank accepted = 20
success_rank sending = 30
success_rank sent = 40
success_rank delivered = 50
success_rank read = 60
success_rank failed = 0
success_rank undelivered = 0
success_rank canceled = 0

unfoldable pub is_failure_status : Status → Bool
is_failure_status failed = true
is_failure_status undelivered = true
is_failure_status canceled = true
is_failure_status _ = false

unfoldable pub status_eq : Status → Status → Bool
unfolding Status-discrete
status_eq a b = elim (Status-discrete a b) [ yes _ ↦ true | no _ ↦ false ]

-- The tests of `should_apply_status` once the current status is known.
unfoldable pub advances : Status → Status → Bool
advances cur incoming =
    if status_eq cur incoming
    then false
    else if is_failure_status incoming
    then true
    else if is_failure_status cur
    then false
    else ltb (success_rank cur) (success_rank incoming)

-- `current` is the stored text, `incoming` a status that `normalize_status` returned.
unfoldable pub should_apply_status : Option Text → Status → Bool
should_apply_status current incoming = elim (normalize_status current) [
  | none ↦ true
  | some cur ↦ advances cur incoming
]

-- The fields of a message, or of a blast's recipient, that a callback reads or writes.
pub record DeliveryDoc : Type 0 where
  pub status : Option Text
  pub provider_status : Option Text
  pub status_updated_at : Option ℕ
  pub updated_at : Option ℕ
  pub error_code : Option Text
  pub error_message : Option Text
  pub error : Option Text
  pub sent_at : Option ℕ
  pub delivered_at : Option ℕ
  pub read_at : Option ℕ
  pub failed_at : Option ℕ

-- The `$set` dict: `none` for a key that it does not hold.
pub record SetFields : Type 0 where
  pub status : Option Text
  pub provider_status : Option Text
  pub status_updated_at : Option ℕ
  pub updated_at : Option ℕ
  pub error_code : Option Text
  pub error_message : Option Text
  pub error : Option Text
  pub sent_at : Option ℕ
  pub delivered_at : Option ℕ
  pub read_at : Option ℕ
  pub failed_at : Option ℕ

abbrev pub no_fields : SetFields
no_fields = record {
  status = none;
  provider_status = none;
  status_updated_at = none;
  updated_at = none;
  error_code = none;
  error_message = none;
  error = none;
  sent_at = none;
  delivered_at = none;
  read_at = none;
  failed_at = none;
}

-- `update_one(…, {"$set": set_fields})`
unfoldable pub set_fields : DeliveryDoc → SetFields → DeliveryDoc
set_fields d u = record {
  status = override d.status u.status;
  provider_status = override d.provider_status u.provider_status;
  status_updated_at = override d.status_updated_at u.status_updated_at;
  updated_at = override d.updated_at u.updated_at;
  error_code = override d.error_code u.error_code;
  error_message = override d.error_message u.error_message;
  error = override d.error u.error;
  sent_at = override d.sent_at u.sent_at;
  delivered_at = override d.delivered_at u.delivered_at;
  read_at = override d.read_at u.read_at;
  failed_at = override d.failed_at u.failed_at;
}

-- One callback: what the provider says, and when it is handled.
pub record Callback : Type 0 where
  pub raw : Text
  pub error_code : Option Text
  pub error_message : Option Text
  pub now : ℕ

-- `str(x).strip()` where that is not empty
abbrev pub trimmed : Option Text → Option Text
trimmed none = none
trimmed (some t) = let s = strip t in if is_empty s then none else some s

abbrev truncated : Option Text → Option Text
truncated none = none
truncated (some t) = some (take 500 t)

-- `update[key] = ts` where the test holds and the document lacks the key
abbrev stamp : Bool → Option ℕ → ℕ → Option ℕ
stamp due present ts = if due && not (is_some present) then some ts else none

failure_fields : DeliveryDoc → Callback → SetFields → SetFields
failure_fields d cb u =
    let msg : Option Text = truncated (trimmed cb.error_message) in
    record u {
      error_code = trimmed cb.error_code;
      error_message = msg;
      error = msg;
      failed_at = stamp true d.failed_at cb.now;
    }

success_fields : DeliveryDoc → Status → Callback → SetFields → SetFields
success_fields d incoming cb u =
    let rank = success_rank incoming in
    record u {
      sent_at = stamp (leb (success_rank sent) rank) d.sent_at cb.now;
      delivered_at = stamp (leb (success_rank delivered) rank) d.delivered_at cb.now;
      read_at = stamp (status_eq incoming read) d.read_at cb.now;
    }

abbrev text_or_empty : Option Text → Text
text_or_empty none = []
text_or_empty (some t) = t

-- An unknown status is kept beside the canonical one.
unknown_update : DeliveryDoc → Callback → Option SetFields
unknown_update d cb =
    let provider = normal cb.raw in
    if is_empty provider
    then none
    else if text_eq (normal (text_or_empty d.provider_status)) provider
    then none
    else some
        (record no_fields { provider_status = some provider; status_updated_at = some cb.now })

known_update : DeliveryDoc → Status → Callback → Option SetFields
known_update d incoming cb =
    if not (should_apply_status d.status incoming)
    then none
    else let update : SetFields = record no_fields {
      status = some (status_name incoming);
      status_updated_at = some cb.now;
      updated_at = some cb.now;
      provider_status = some (status_name incoming);
    } in
      some (
        if is_failure_status incoming
        then failure_fields d cb update
        else success_fields d incoming cb update)

pub build_status_update : DeliveryDoc → Callback → Option SetFields
build_status_update d cb = elim (normalize_status (some cb.raw)) [
  | none ↦ unknown_update d cb
  | some incoming ↦ known_update d incoming cb
]

-- Read, build, write: what every caller does with one callback and one document.
unfoldable pub apply_callback : DeliveryDoc → Callback → DeliveryDoc
apply_callback d cb = elim (build_status_update d cb) [ none ↦ d | some u ↦ set_fields d u ]

unfoldable pub apply_callbacks : DeliveryDoc → List Callback → DeliveryDoc
apply_callbacks d [] = d
apply_callbacks d (cb ∷ cbs) = apply_callbacks (apply_callback d cb) cbs
