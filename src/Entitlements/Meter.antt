-- ===== src/Entitlements/Meter.antt =====
-- The meter of AI conversations through a month of replies, with Redis in reach.
use ai_wa_chat_agent_be.Prelude.{
  ℕ, zero, suc, ◌≤◌, ◌≡◌, refl, true, not, ◌&&◌, some, List, [], ◌∷◌, arith, max, length, ◌==◌,
  if◌then◌else◌, ltb, ℤ, pos, Bool-cases, inl, inr,
}
use ai_wa_chat_agent_be.Entitlements.{
  Meter, is_member, ai_conversation_allowed, record_ai_conversation, meter_reply,
}

-- The month's meter after the reply jobs for these leads, in this order.
unfoldable pub meter_replies : ℤ → List ℕ → Meter → Meter
meter_replies limit [] meter = meter
meter_replies limit (lead ∷ leads) meter =
    meter_replies limit leads (meter_reply limit lead meter).0

-- The set after one reply: a new lead where there is room, and else the same.
meter_reply-some :
    (n lead : ℕ) (set : List ℕ)
    → (meter_reply (pos n) lead (some set)).0
      ≡ some (if not (is_member lead set) && ltb (length set) n then lead ∷ set else set)
unfolding meter_reply record_ai_conversation ai_conversation_allowed
meter_reply-some n lead set = ground arith

-- In a month of replies in any order the meter never counts more leads than the plan allows, or
-- than it had counted at first.
pub meter_replies-bounded :
    (n : ℕ) (leads set : List ℕ)
    → (after : List ℕ) × (meter_replies (pos n) leads (some set) ≡ some after)
      × (length after ≤ max n (length set))
unfolding meter_replies
meter_replies-bounded n [] set = (set, refl, omega arith)
meter_replies-bounded n (lead ∷ leads) set =
    rw (meter_reply-some n lead set)
      (elim (Bool-cases (not (is_member lead set) && ltb (length set) n)) [
        | inl room ↦
            let (after, e, le) = meter_replies-bounded n leads (lead ∷ set) in
            rw room (after, e, ground arith)
        | inr full ↦ rw full (meter_replies-bounded n leads set)
      ])

==-refl : (n : ℕ) → (n == n) ≡ true
==-refl n = ground arith

-- A lead that is counted is still counted after other replies, and is answered.
member_kept :
    (n lead : ℕ) (leads set : List ℕ)
    → is_member lead set ≡ true
    → ai_conversation_allowed (meter_replies (pos (suc n)) leads (some set)) lead (pos (suc n))
      ≡ true
unfolding meter_replies ai_conversation_allowed
member_kept n lead [] set h = rw h (ground arith)
member_kept n lead (other ∷ leads) set h =
    rw (meter_reply-some (suc n) other set)
      (elim (Bool-cases (not (is_member other set) && ltb (length set) (suc n))) [
        | inl room ↦ rw room (member_kept n lead leads (other ∷ set) (ground arith))
        | inr full ↦ rw full (member_kept n lead leads set h)
      ])

-- A lead that was answered once is answered for the rest of the month, however many other leads
-- write in between: a thread is one conversation and is not cut off.
pub meter_reply-kept :
    (n lead : ℕ) (leads set : List ℕ)
    → ai_conversation_allowed (some set) lead (pos n) ≡ true
    → ai_conversation_allowed
        (meter_replies (pos n) leads (meter_reply (pos n) lead (some set)).0)
        lead
        (pos n)
      ≡ true
unfolding ai_conversation_allowed
meter_reply-kept zero lead leads set h = cc
meter_reply-kept (suc n) lead leads set h =
    rw (meter_reply-some (suc n) lead set) (elim (Bool-cases (is_member lead set)) [
      | inl member ↦ rw member (member_kept n lead leads set member)
      | inr fresh ↦
          let room : (not (is_member lead set) && ltb (length set) (suc n)) ≡ true = ground arith in
          rw room (member_kept n lead leads (lead ∷ set) (ground (arith, ==-refl lead)))
    ])
