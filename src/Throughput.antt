-- ===== src/Throughput.antt =====
-- app/services/throughput.py: the permits of the sends. A permit passes three counters of Redis, one of
-- the second, one of the minute and one of the tenant's minute, and takes one of the concurrent slots.
-- A time is in whole seconds.
pub mod Second
pub mod Slots
mod Tests
use ai_wa_chat_agent_be.Prelude.{
  ℕ, zero, suc, ◌+◌, ◌/◌, ◌≤◌, ◌<◌, ◌≡◌, Bool, true, false, ◌&&◌, List, [], ◌∷◌, ℤ, pos, negsuc,
  if◌then◌else◌, ltb, leb, ◌==◌, max,
}
use ai_wa_chat_agent_be.RateLimit.{Redis}

abbrev pub up : ℤ → ℤ
up (pos n) = pos (suc n)
up (negsuc zero) = pos 0
up (negsuc (suc n)) = negsuc n

abbrev pub down : ℤ → ℤ
down (pos zero) = negsuc 0
down (pos (suc n)) = pos n
down (negsuc n) = negsuc (suc n)

-- What the slots rely on of Redis, for their one key: `INCR` and `DECR` count up and down from the
-- value, which is 0 for a key that is absent or has expired, also below 0; `EXPIRE` leaves the value,
-- and the key is gone when its time is over, if nothing was written to it meanwhile.
pub record SlotCounter : Type 1 where
  pub State : Type 0
  pub value : ℕ → State → ℤ
  pub incr : ℕ → State → State
  pub decr : ℕ → State → State
  pub expire : ℕ → ℕ → State → State
  pub incr-value : (now : ℕ) (s : State) → value now (incr now s) ≡ up (value now s)
  pub decr-value : (now : ℕ) (s : State) → value now (decr now s) ≡ down (value now s)
  pub expire-value :
      (now window : ℕ) (s : State) → 0 < window → value now (expire now window s) ≡ value now s
  pub expire-expired :
      (now window later : ℕ) (s : State)
      → now + window ≤ later
      → value later (expire now window s) ≡ pos 0

pub record Limits : Type 0 where
  pub per_second : ℕ
  pub per_minute : ℕ
  pub tenant_per_minute : ℕ
  pub max_concurrent : ℕ

abbrev pub is_one_slot : ℤ → Bool
is_one_slot (pos n) = n == 1
is_one_slot (negsuc n) = false

abbrev pub is_over : ℕ → ℤ → Bool
is_over limit (pos n) = ltb limit n
is_over limit (negsuc n) = false

module _ (R : Redis) where
  -- `INCR`, and `EXPIRE` on the first; the second part is whether the count is within the limit.
  unfoldable pub count_one : ℕ → ℕ → ℕ → R.State → R.State × Bool
  count_one limit ttl now s =
      let counted = R.incr now s in
      let count = R.value now counted in
      (if count == 1 then R.expire now ttl counted else counted, leb count (max 1 limit))

module _ (S : SlotCounter) where
  -- the concurrent slots of acquire_send_permit
  unfoldable pub acquire_slot : ℕ → ℕ → S.State → S.State × Bool
  acquire_slot limit now s =
      let taken = S.incr now s in
      let current = S.value now taken in
      let held = if is_one_slot current then S.expire now 120 taken else taken in
      if is_over (max 1 limit) current then (S.decr now held, false) else (held, true)

  unfoldable pub release_send_permit : ℕ → S.State → S.State
  release_send_permit now s = S.decr now s

  -- So many acquisitions at one time, and how many are granted.
  unfoldable pub acquire_slots : ℕ → ℕ → ℕ → S.State → ℕ
  acquire_slots limit now zero s = 0
  acquire_slots limit now (suc n) s =
      let (t, granted) = acquire_slot limit now s in
      (if granted then 1 else 0) + acquire_slots limit now n t

module _ (R : Redis) (S : SlotCounter) where
  -- The keys of Redis, by their second, their minute, and their user and minute.
  pub record Counters : Type 0 where
    pub second : ℕ → R.State
    pub minute : ℕ → R.State
    pub tenant_minute : ℕ → ℕ → R.State
    pub slots : S.State

  abbrev set_at : ℕ → R.State → (ℕ → R.State) → ℕ → R.State
  set_at i x f j = if j == i then x else f j

  unfoldable pub acquire_send_permit : Limits → ℕ → ℕ → Counters → Counters × Bool
  acquire_send_permit cfg user now s =
      let m = now / 60 in
      let (sec, sec_ok) = count_one R cfg.per_second 2 now (s.second now) in
      let (min, min_ok) = count_one R cfg.per_minute 70 now (s.minute m) in
      let (ten, ten_ok) = count_one R cfg.tenant_per_minute 70 now (s.tenant_minute user m) in
      let (slots, slot_ok) = acquire_slot S cfg.max_concurrent now s.slots in
      let by_second : Counters = record s { second = set_at now sec s.second } in
      let by_minute : Counters = record by_second { minute = set_at m min s.minute } in
      let by_tenant : Counters = record by_minute {
        tenant_minute =
            λ u. if u == user then set_at m ten (s.tenant_minute u) else s.tenant_minute u;
      } in
      if sec_ok
      then (if min_ok
          then (if ten_ok
              then (record by_tenant { slots = slots }, slot_ok)
              else (by_tenant, false))
          else (by_minute, false))
      else (by_second, false)

  -- The requests of one second, by their users, and how many get a permit.
  unfoldable pub permits : Limits → ℕ → List ℕ → Counters → ℕ
  permits cfg now [] s = 0
  permits cfg now (user ∷ users) s =
      let (t, granted) = acquire_send_permit cfg user now s in
      (if granted then 1 else 0) + permits cfg now users t
