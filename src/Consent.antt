-- ===== src/Consent.antt =====
-- app/services/whatsapp_consent.py (consent and keywords), app/services/whatsapp_window.py (the
-- 24-hour window) and app/services/consent_ops.py (a change of consent). A time is in seconds. Audit
-- entries are not modelled; `sync_apply_consent_change` writes what `apply_consent_change` writes.
pub mod Keywords
pub mod Window
pub mod Sync
mod Tests
use ai_wa_chat_agent_be.Prelude.{
  ℕ, ◌+◌, ◌-◌, ◌*◌, Bool, true, false, not, ◌&&◌, ◌||◌, Option, none, some, List, [], ◌∷◌, ◌++◌,
  take, any, is_some, if◌then◌else◌, ltb, ◌==◌, or_else,
}
use ai_wa_chat_agent_be.Prelude.Text.{
  Text, codes, is_space, lower, strip, is_empty, or_text, is_one_of, text_eq,
}
use ai_wa_chat_agent_be.Campaign.{RecipientStatus, is_open}

pub data ConsentStatus : Type 0 where
  unknown pending opted_in opted_out : ConsentStatus

unfoldable pub consent_name : ConsentStatus → Text
consent_name unknown = codes "unknown"
consent_name pending = codes "pending"
consent_name opted_in = codes "opted_in"
consent_name opted_out = codes "opted_out"

pub record Lead : Type 0 where
  pub phone : Option Text
  pub whatsapp_consent_status : Option Text
  pub whatsapp_consent_source : Option Text
  pub whatsapp_consent_at : Option ℕ
  pub whatsapp_consent_updated_at : Option ℕ
  pub whatsapp_consent_proof : Option Text
  pub whatsapp_consent_changed_by : Option Text
  pub whatsapp_opted_out_at : Option ℕ
  pub whatsapp_opt_out_reason : Option Text
  pub blacklisted : Bool
  pub ai_paused : Bool
  pub last_inbound_at : Option ℕ
  pub whatsapp_window_expires_at : Option ℕ

-- WINDOW_HOURS
abbrev pub window_seconds : ℕ
window_seconds = 24 * 3600

-- compute_window_expiry
unfoldable pub compute_window_expiry : ℕ → ℕ
compute_window_expiry last = last + window_seconds

-- the expiry stored, or the one that follows from the last inbound message
unfoldable pub window_expiry : Lead → Option ℕ
unfolding compute_window_expiry
window_expiry l = elim l.whatsapp_window_expires_at [
  | some t ↦ some t
  | none ↦ elim l.last_inbound_at [ some last ↦ some (compute_window_expiry last) | none ↦ none ]
]

unfoldable pub is_whatsapp_window_open : ℕ → Lead → Bool
is_whatsapp_window_open now l = elim (window_expiry l) [
  | none ↦ false
  | some expires ↦ ltb now expires
]

-- get_whatsapp_window_status, less the printed times
pub record WindowStatus : Type 0 where
  pub is_open : Bool
  pub seconds_remaining : ℕ

unfoldable pub get_whatsapp_window_status : ℕ → Lead → WindowStatus
get_whatsapp_window_status now l =
    let expires = window_expiry l in
    let is_open = is_some expires && ltb now (or_else expires 0) in
    record { is_open = is_open; seconds_remaining = if is_open then or_else expires 0 - now else 0 }

-- the `$set` of inbound_window_fields
unfoldable pub inbound_window_fields : ℕ → Lead → Lead
inbound_window_fields now l = record l {
  last_inbound_at = some now;
  whatsapp_window_expires_at = some (compute_window_expiry now);
}

-- What a change of consent is called with.
pub record Change : Type 0 where
  pub source : Text
  pub proof : Option Text
  pub reason : Option Text
  pub changed_by : Option Text

abbrev set_if : Option Text → Option Text → Option Text
set_if none old = old
set_if (some t) old = some t

abbrev cut : ℕ → Option Text → Option Text
cut n none = none
cut n (some t) = some (take n t)

-- the fields of every change
unfoldable pub consent_fields : ℕ → ConsentStatus → Change → Lead → Lead
consent_fields now st c l = record l {
  whatsapp_consent_status = some (consent_name st);
  whatsapp_consent_source = some c.source;
  whatsapp_consent_updated_at = some now;
  whatsapp_consent_proof = set_if (cut 500 c.proof) l.whatsapp_consent_proof;
  whatsapp_consent_changed_by = set_if c.changed_by l.whatsapp_consent_changed_by;
}

-- the `$set` of consent_update_fields, on the lead
unfoldable pub consent_update_fields : ℕ → ConsentStatus → Change → Lead → Lead
consent_update_fields now opted_in c l = record (consent_fields now opted_in c l) {
  whatsapp_consent_at = some now;
  whatsapp_opted_out_at = none;
  whatsapp_opt_out_reason = none;
  blacklisted = false;
}
consent_update_fields now opted_out c l = record (consent_fields now opted_out c l) {
  whatsapp_opted_out_at = some now;
  whatsapp_opt_out_reason = some (take 200 (or_text c.reason (codes "opted_out")));
  blacklisted = true;
  ai_paused = true;
}
consent_update_fields now st c l = consent_fields now st c l

-- The character class of `_PUNCT_STRIP`.
unfoldable pub is_punct : ℕ → Bool
unfolding is_space
is_punct c = is_space c || any (λ d. c == d) (codes "\"'`.,!?;:()[]{}<>")

-- `_PUNCT_STRIP.sub("", text)`: what it finds at the front, and what it finds at the end.
unfoldable pub strip_front : Text → Text
strip_front [] = []
strip_front (c ∷ cs) = let rest = strip_front cs in if is_punct c then rest else c ∷ cs

unfoldable pub strip_end : Text → Text
strip_end [] = []
strip_end (c ∷ cs) = let rest = strip_end cs in if is_punct c && is_empty rest then [] else c ∷ rest

unfoldable pub normalize_keyword_body : Text → Text
normalize_keyword_body body = strip (lower (strip_end (strip_front (strip body))))

-- is_optout_keyword and is_optin_keyword, with the keywords of the settings
unfoldable pub is_keyword : List Text → Text → Bool
is_keyword keywords body = is_one_of (normalize_keyword_body body) keywords

-- The collections that a change of consent touches, of one tenant: the lead, the blacklisted phones,
-- the campaign recipients by phone, and the consent events.
pub record Collections : Type 0 where
  pub lead : Option Lead
  pub blacklist : List Text
  pub recipients : List (Text × RecipientStatus)
  pub consent_events : List ConsentStatus

-- an upsert by phone
unfoldable pub upsert_phone : Text → List Text → List Text
upsert_phone p phones = if any (text_eq p) phones then phones else p ∷ phones

-- delete_one
unfoldable pub delete_phone : Text → List Text → List Text
delete_phone p [] = []
delete_phone p (q ∷ qs) = let rest = delete_phone p qs in if text_eq p q then qs else q ∷ rest

unfoldable pub cancel_pending_for_phone :
    Text → List (Text × RecipientStatus) → List (Text × RecipientStatus)
cancel_pending_for_phone p [] = []
cancel_pending_for_phone p ((q, st) ∷ rs) =
    (q, if text_eq p q && is_open st then RecipientStatus.cancelled else st)
    ∷ cancel_pending_for_phone p rs

-- the writes by phone
unfoldable pub sync_phone : ConsentStatus → Text → Collections → Collections
sync_phone opted_out p s = record s {
  blacklist = upsert_phone p s.blacklist;
  recipients = cancel_pending_for_phone p s.recipients;
}
sync_phone opted_in p s = record s { blacklist = delete_phone p s.blacklist }
sync_phone _ p s = s

-- `phone` is the caller's, and else the lead's.
unfoldable pub apply_consent_change :
    ℕ → ConsentStatus → Change → Option Text → Collections → Collections
apply_consent_change now st c phone s = elim s.lead [
  | none ↦ s
  | some l ↦
      let updated = record s { lead = some (consent_update_fields now st c l) } in
      let p = or_text phone (or_text l.phone []) in
      let synced = if is_empty p then updated else sync_phone st p updated in
      record synced { consent_events = s.consent_events ++ st ∷ [] }
]
