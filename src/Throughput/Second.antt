-- ===== src/Throughput/Second.antt =====
-- The permits of one second.
use ai_wa_chat_agent_be.Prelude.{
  ℕ, suc, ◌-◌, ◌/◌, ◌≤◌, ◌<◌, ◌≡◌, refl, ◌∙◌, true, false, List, [], ◌∷◌, arith, inl, inr, ◌==◌,
  max, Bool-cases,
}
use ai_wa_chat_agent_be.RateLimit.{Redis}
use ai_wa_chat_agent_be.Throughput.{
  SlotCounter, Limits, count_one, Counters, acquire_send_permit, permits,
}

module _ (R : Redis) where
  count_one-value :
      (limit ttl now : ℕ) (s : R.State)
      → 0 < ttl
      → R.value now (count_one R limit ttl now s).0 ≡ suc (R.value now s)
  unfolding count_one
  count_one-value limit ttl now s pos =
      let counted = R.incr now s in
      elim (Bool-cases (R.value now counted == 1)) [
        | inl one ↦ rw (one, count_one) (R.expire-value now ttl counted pos ∙ R.incr-value now s)
        | inr more ↦ rw (more, count_one) (R.incr-value now s)
      ]

  count_one-within :
      (limit ttl now : ℕ) (s : R.State)
      → (count_one R limit ttl now s).1 ≡ true
      → R.value now s < max 1 limit
  unfolding count_one
  count_one-within limit ttl now s h = ground (arith, h, R.incr-value now s)

module _ (R : Redis) (S : SlotCounter) where
  -- Whoever asks, the second is counted, and a permit is within its limit.
  acquire-second :
      (cfg : Limits) (user now : ℕ) (s : Counters R S)
      → (acquire_send_permit R S cfg user now s).0.second now
        ≡ (count_one R cfg.per_second 2 now (s.second now)).0
  unfolding acquire_send_permit
  acquire-second cfg user now s =
      let same : (now == now) ≡ true = ground arith in
      elim (Bool-cases (count_one R cfg.per_second 2 now (s.second now)).1) [
        | inr over ↦ rw (over, same, acquire_send_permit) refl
        | inl a ↦ elim (Bool-cases (count_one R cfg.per_minute 70 now (s.minute (now / 60))).1) [
          | inr over ↦ rw (a, over, same, acquire_send_permit) refl
          | inl b ↦
              elim (Bool-cases
                (count_one R cfg.tenant_per_minute 70 now (s.tenant_minute user (now / 60))).1) [
                  | inr over ↦ rw (a, b, over, same, acquire_send_permit) refl
                  | inl c ↦ rw (a, b, c, same, acquire_send_permit) refl
                ]
        ]
      ]

  acquire-within :
      (cfg : Limits) (user now : ℕ) (s : Counters R S)
      → (acquire_send_permit R S cfg user now s).1 ≡ true
      → (count_one R cfg.per_second 2 now (s.second now)).1 ≡ true
  unfolding acquire_send_permit
  acquire-within cfg user now s granted =
      elim (Bool-cases (count_one R cfg.per_second 2 now (s.second now)).1) [
        | inl a ↦ a
        | inr over ↦ absurd (let d : false ≡ true = rw (over, acquire_send_permit) at granted in cc)
      ]

  -- Of the requests of one second, whoever makes them, at most as many get a permit as the limit of
  -- the second leaves room for beyond those that were counted in it before.
  pub permits-second :
      (cfg : Limits) (now : ℕ) (users : List ℕ) (s : Counters R S)
      → permits R S cfg now users s ≤ max 1 cfg.per_second - R.value now (s.second now)
  unfolding permits
  permits-second cfg now [] s = omega arith
  permits-second cfg now (user ∷ users) s =
      let t = (acquire_send_permit R S cfg user now s).0 in
      let rest = permits-second cfg now users t in
      let counted : R.value now (t.second now) ≡ suc (R.value now (s.second now)) =
        rw (acquire-second cfg user now s)
          (count_one-value R cfg.per_second 2 now (s.second now) (omega arith)) in
      elim (Bool-cases (acquire_send_permit R S cfg user now s).1) [
        | inl granted ↦
            let room =
              count_one-within R cfg.per_second 2 now (s.second now)
                (acquire-within cfg user now s granted) in
            rw (granted, permits) (omega arith)
        | inr refused ↦ rw (refused, permits) (omega arith)
      ]
