-- ===== src/RateLimit.antt =====
-- app/security/rate_limit.py, `check_rate_limit`: a fixed window on a Redis counter. One key; a time
-- is in seconds; a limit or a window of 0 stands for every one that is not positive.
pub mod Window
pub mod Counter
mod Tests
use ai_wa_chat_agent_be.Prelude.{
  ℕ, zero, suc, ◌+◌, ◌≤◌, ◌<◌, ◌≡◌, Bool, true, false, ◌||◌, List, [], ◌∷◌, if◌then◌else◌, leb,
  ◌==◌,
}

-- What the check relies on of Redis, for one key: `INCR` answers one more than the value, which is 0
-- for a key that is absent or has expired; `EXPIRE` sets the time to live of a
-- key that is there and leaves the value. A
-- key lives to `h` when it will not expire up to `h`; until then its value changes by `INCR` only.
pub record Redis : Type 1 where
  pub State : Type 0
  pub value : ℕ → State → ℕ
  pub Lives : ℕ → State → Type 0
  pub incr : ℕ → State → State
  pub expire : ℕ → ℕ → State → State
  pub incr-value : (now : ℕ) (s : State) → value now (incr now s) ≡ suc (value now s)
  pub incr-Lives : (h now : ℕ) (s : State) → now ≤ h → Lives h s → Lives h (incr now s)
  pub expire-value :
      (now window : ℕ) (s : State) → 0 < window → value now (expire now window s) ≡ value now s
  pub expire-Lives :
      (h now window : ℕ) (s : State)
      → 0 < value now s
      → h < now + window
      → Lives h (expire now window s)
  pub value-Lives : (h a b : ℕ) (s : State) → a ≤ b → b ≤ h → Lives h s → value b s ≡ value a s

module _ (R : Redis) where
  -- The state after the check, and whether the request passes (and is not answered with 429).
  unfoldable pub check_rate_limit : ℕ → ℕ → ℕ → R.State → R.State × Bool
  check_rate_limit limit window now s =
      if limit == 0 || window == 0
      then (s, true)
      else let counted = R.incr now s in
        let count = R.value now counted in
        (if count == 1 then R.expire now window counted else counted, leb count limit)

  -- The requests at these times, one after the other: how many pass.
  unfoldable pub passes : ℕ → ℕ → List ℕ → R.State → ℕ
  passes limit window [] s = 0
  passes limit window (now ∷ times) s =
      let (t, passed) = check_rate_limit limit window now s in
      (if passed then 1 else 0) + passes limit window times t
