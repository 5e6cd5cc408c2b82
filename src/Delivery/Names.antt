-- ===== src/Delivery/Names.antt =====
-- The text under which app/services/delivery_status.py stores a canonical status.
use ai_wa_chat_agent_be.Prelude.{◌≡◌, refl, some, true}
use ai_wa_chat_agent_be.Delivery.{Status, queued, status_name, normalize_status, status_eq}

pub normalize-name : (s : Status) → normalize_status (some (status_name s)) ≡ some s
unfolding normalize_status status_name
normalize-name queued = refl
normalize-name _ = refl

pub status_eq_refl : (s : Status) → status_eq s s ≡ true
unfolding status_eq
status_eq_refl queued = refl
status_eq_refl _ = refl
