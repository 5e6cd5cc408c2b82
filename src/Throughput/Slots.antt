-- ===== src/Throughput/Slots.antt =====
-- The concurrent slots, when their key expires while a send holds one.
use ai_wa_chat_agent_be.Prelude.{
  ℕ, zero, suc, ◌+◌, ◌≤◌, ◌<◌, ◌≡◌, refl, ap, ◌∙◌, true, false, pos, negsuc, arith, inl, inr, max,
  ltb, ◌==◌, Bool-cases,
}
use ai_wa_chat_agent_be.Throughput.{
  SlotCounter, up, down, acquire_slot, release_send_permit, acquire_slots,
}

module _ (S : SlotCounter) where
  -- A slot is granted while fewer are taken than the limit.
  acquire_slot-free :
      (limit now n : ℕ) (s : S.State)
      → S.value now s ≡ pos n
      → n < max 1 limit
      → ((acquire_slot S limit now s).1 ≡ true)
        × (S.value now (acquire_slot S limit now s).0 ≡ pos (suc n))
  unfolding acquire_slot
  acquire_slot-free limit now n s v room =
      let taken : S.value now (S.incr now s) ≡ pos (suc n) = S.incr-value now s ∙ ap up v in
      let within : ltb (max 1 limit) (suc n) ≡ false = ground arith in
      elim (Bool-cases (suc n == 1)) [
        | inl one ↦
            rw (taken, one, within, acquire_slot)
              (refl, S.expire-value now 120 (S.incr now s) (omega arith) ∙ taken)
        | inr more ↦ rw (taken, more, within, acquire_slot) (refl, taken)
      ]

  acquire_slots-free :
      (limit now k n : ℕ) (s : S.State)
      → S.value now s ≡ pos n
      → n + k ≤ max 1 limit
      → acquire_slots S limit now k s ≡ k
  unfolding acquire_slots
  acquire_slots-free limit now zero n s v room = refl
  acquire_slots-free limit now (suc k) n s v room =
      let (granted, next) = acquire_slot-free limit now n s v (omega arith) in
      let rest =
        acquire_slots-free limit now k (suc n) (acquire_slot S limit now s).0 next (omega arith) in
      rw (granted, acquire_slots) (omega arith)

  -- below zero: the slot is granted, and no time to live is set
  acquire_slot-below :
      (limit now : ℕ) (s : S.State)
      → S.value now s ≡ negsuc 0
      → ((acquire_slot S limit now s).1 ≡ true)
        × (S.value now (acquire_slot S limit now s).0 ≡ pos 0)
  unfolding acquire_slot
  acquire_slot-below limit now s v =
      let taken : S.value now (S.incr now s) ≡ pos 0 = S.incr-value now s ∙ ap up v in
      let within : ltb (max 1 limit) 0 ≡ false = ground arith in
      let none_one : (0 == 1) ≡ false = refl in
      rw (taken, none_one, within, acquire_slot) (refl, taken)

  -- A send takes the first slot, is still busy when the time to live of the key is over, and then
  -- gives the slot back. From there one more send than the limit is granted a slot at once, while none
  -- gives one back.
  pub expired_slot_leaks :
      (limit first later : ℕ) (s : S.State)
      → S.value first s ≡ pos 0
      → first + 120 ≤ later
      → let held = (acquire_slot S limit first s).0 in
        acquire_slots S limit later (suc (max 1 limit)) (release_send_permit S later held)
        ≡ suc (max 1 limit)
  unfolding acquire_slot acquire_slots release_send_permit
  expired_slot_leaks limit first later s free long =
      let taken : S.value first (S.incr first s) ≡ pos 1 = S.incr-value first s ∙ ap up free in
      let within : ltb (max 1 limit) 1 ≡ false = ground arith in
      let held = S.expire first 120 (S.incr first s) in
      let gone : S.value later held ≡ pos 0 =
        S.expire-expired first 120 later (S.incr first s) long in
      let released = S.decr later held in
      let below : S.value later released ≡ negsuc 0 = S.decr-value later held ∙ ap down gone in
      let (granted, zeroed) = acquire_slot-below limit later released below in
      let rest =
        acquire_slots-free limit later (max 1 limit) 0 (acquire_slot S limit later released).0
          zeroed (omega arith) in
      rw (taken, within) (rw granted (omega (arith, rest)))
