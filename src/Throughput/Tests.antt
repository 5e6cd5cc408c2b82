-- ===== src/Throughput/Tests.antt =====
-- Permits over concrete counters.
use ai_wa_chat_agent_be.Prelude.{
  ℕ, suc, ◌+◌, ◌-◌, ◌≤◌, ◌<◌, ◌≡◌, refl, Option, none, some, [], ◌∷◌, ℤ, pos, arith, max,
  if◌then◌else◌, Bool-cases, inl, inr,
}
use ai_wa_chat_agent_be.RateLimit.Counter.{is_alive, counter}
use ai_wa_chat_agent_be.Throughput.{
  up, down, SlotCounter, Limits, acquire_slot, release_send_permit, acquire_slots, Counters,
  permits,
}
use ai_wa_chat_agent_be.Throughput.Second.{permits-second}
use ai_wa_chat_agent_be.Throughput.Slots.{expired_slot_leaks}

abbrev SlotKey : Type 0
SlotKey = ℤ × Option ℕ

abbrev slot_value : ℕ → SlotKey → ℤ
slot_value now (v, e) = if is_alive now e then v else pos 0

-- a write to a key that is gone begins a new one
abbrev slot_write : (ℤ → ℤ) → ℕ → SlotKey → SlotKey
slot_write f now (v, e) = if is_alive now e then (f v, e) else (f (pos 0), none)

abbrev slot_expire : ℕ → ℕ → SlotKey → SlotKey
slot_expire now window (v, e) = if is_alive now e then (v, some (now + window)) else (v, e)

slot_write-value :
    (f : ℤ → ℤ) (now : ℕ) (s : SlotKey) → slot_value now (slot_write f now s) ≡ f (slot_value now s)
slot_write-value f now (v, e) = elim (Bool-cases (is_alive now e)) [
  | inl alive ↦ rw (alive, alive) refl
  | inr gone ↦ rw gone refl
]

slot_expire-value :
    (now window : ℕ) (s : SlotKey)
    → 0 < window
    → slot_value now (slot_expire now window s) ≡ slot_value now s
slot_expire-value now window s h = ground arith

slot_expire-expired :
    (now window later : ℕ) (s : SlotKey)
    → now + window ≤ later
    → slot_value later (slot_expire now window s) ≡ pos 0
slot_expire-expired now window later s h = ground arith

abbrev slot_counter : SlotCounter
slot_counter = record {
  State = SlotKey;
  value = slot_value;
  incr = slot_write up;
  decr = slot_write down;
  expire = slot_expire;
  incr-value = slot_write-value up;
  decr-value = slot_write-value down;
  expire-value = slot_expire-value;
  expire-expired = slot_expire-expired;
}

abbrev limits : Limits
limits = record { per_second = 2; per_minute = 60; tenant_per_minute = 30; max_concurrent = 3 }

abbrev fresh : Counters counter slot_counter
fresh = record {
  second = λ i. (0, none);
  minute = λ i. (0, none);
  tenant_minute = λ u i. (0, none);
  slots = (pos 0, none);
}

permits-second_example :
    permits counter slot_counter limits 600 (7 ∷ 8 ∷ 7 ∷ []) fresh ≤ max 1 2 - 0
permits-second_example = permits-second counter slot_counter limits 600 (7 ∷ 8 ∷ 7 ∷ []) fresh

expired_slot_leaks_example :
    let held = (acquire_slot slot_counter 3 600 (pos 0, none)).0 in
    acquire_slots slot_counter 3 730 (suc (max 1 3)) (release_send_permit slot_counter 730 held)
    ≡ suc (max 1 3)
expired_slot_leaks_example =
    expired_slot_leaks slot_counter 3 600 730 (pos 0, none) refl (omega arith)
