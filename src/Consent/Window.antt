-- ===== src/Consent/Window.antt =====
-- The 24-hour window: what the two readers say of it, and how long it lasts.
use ai_wa_chat_agent_be.Prelude.{ℕ, ◌+◌, ◌-◌, ◌*◌, ◌≡◌, arith, ltb}
use ai_wa_chat_agent_be.Consent.{
  Lead, window_expiry, compute_window_expiry, is_whatsapp_window_open, get_whatsapp_window_status,
  inbound_window_fields,
}

-- The status that is shown and the test that the sends use agree on every lead at every time, and
-- time remains exactly while the window is open.
pub window_status-agrees :
    (now : ℕ) (l : Lead)
    → ((get_whatsapp_window_status now l).is_open ≡ is_whatsapp_window_open now l)
      × (ltb 0 (get_whatsapp_window_status now l).seconds_remaining ≡ is_whatsapp_window_open now l)
unfolding get_whatsapp_window_status is_whatsapp_window_open
window_status-agrees now l = ground arith

-- After an inbound message at `t`, whatever was stored before, the window is open for exactly 24
-- hours, and the seconds remaining count down to its end.
pub inbound_opens_window :
    (t now : ℕ) (l : Lead)
    → (is_whatsapp_window_open now (inbound_window_fields t l) ≡ ltb now (t + 24 * 3600))
      × ((get_whatsapp_window_status now (inbound_window_fields t l)).seconds_remaining
          ≡ t + 24 * 3600 - now)
unfolding get_whatsapp_window_status is_whatsapp_window_open inbound_window_fields window_expiry
    compute_window_expiry
inbound_opens_window t now l = ground arith
