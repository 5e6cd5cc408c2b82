-- ===== src/RateLimit/Counter.antt =====
-- A key of Redis as a value and a time of expiry, which has all that the check relies on.
use ai_wa_chat_agent_be.Prelude.{
  ℕ, suc, ◌+◌, ◌≤◌, ◌<◌, ◌≡◌, Bool, true, Option, none, some, arith, ltb, if◌then◌else◌,
}
use ai_wa_chat_agent_be.RateLimit.{Redis}

-- A value, and when it expires.
abbrev pub Key : Type 0
Key = ℕ × Option ℕ

abbrev pub is_alive : ℕ → Option ℕ → Bool
is_alive now none = true
is_alive now (some t) = ltb now t

abbrev pub key_value : ℕ → Key → ℕ
key_value now (v, e) = if is_alive now e then v else 0

abbrev pub key_incr : ℕ → Key → Key
key_incr now (v, e) = if is_alive now e then (suc v, e) else (1, none)

abbrev pub key_expire : ℕ → ℕ → Key → Key
key_expire now window (v, e) = if is_alive now e then (v, some (now + window)) else (v, e)

abbrev pub Lives : ℕ → Key → Type 0
Lives h s = is_alive h s.1 ≡ true

pub key_incr-value : (now : ℕ) (s : Key) → key_value now (key_incr now s) ≡ suc (key_value now s)
key_incr-value now s = ground arith

pub key_incr-Lives : (h now : ℕ) (s : Key) → now ≤ h → Lives h s → Lives h (key_incr now s)
key_incr-Lives h now s le live = ground arith

pub key_expire-value :
    (now window : ℕ) (s : Key)
    → 0 < window
    → key_value now (key_expire now window s) ≡ key_value now s
key_expire-value now window s wp = ground arith

pub key_expire-Lives :
    (h now window : ℕ) (s : Key)
    → 0 < key_value now s
    → h < now + window
    → Lives h (key_expire now window s)
key_expire-Lives h now window s there lt = ground arith

pub key_value-Lives :
    (h a b : ℕ) (s : Key) → a ≤ b → b ≤ h → Lives h s → key_value b s ≡ key_value a s
key_value-Lives h a b s ab bh live = ground arith

abbrev pub counter : Redis
counter = record {
  State = Key;
  value = key_value;
  Lives = Lives;
  incr = key_incr;
  expire = key_expire;
  incr-value = key_incr-value;
  incr-Lives = key_incr-Lives;
  expire-value = key_expire-value;
  expire-Lives = key_expire-Lives;
  value-Lives = key_value-Lives;
}
