-- ===== src/Blast/Drift.antt =====
-- Where the counters of a blast leave the recipients that they should count.
use ai_wa_chat_agent_be.Prelude.{
  ℕ, zero, suc, ◌+◌, ◌<◌, ◌≡◌, refl, true, Option, none, some, List, [], ◌∷◌, arith,
}
use ai_wa_chat_agent_be.Prelude.Text.{Text}
use ai_wa_chat_agent_be.Delivery.{
  Status, queued, sent, delivered, failed, undelivered, status_name, normalize_status,
  should_apply_status, advances, status_eq, is_failure_status, success_rank, DeliveryDoc,
  set_fields, Callback,
}
use ai_wa_chat_agent_be.Delivery.Names.{normalize-name}
use ai_wa_chat_agent_be.Delivery.Monotone.{build-applied}
use ai_wa_chat_agent_be.Blast.{
  Blast, metric_inc, new_status, inc_counters, update_found, update_all,
}

-- A callback with the canonical status `s`, as Twilio sends it.
abbrev pub says : Status → ℕ → Callback
says s now = record { raw = status_name s; error_code = none; error_message = none; now = now }

-- A callback that advances the recipient stores its status, and counts by it.
step :
    (b : Blast) (d : DeliveryDoc) (s : Status) (now : ℕ)
    → should_apply_status d.status s ≡ true
    → (normalize_status (update_found b d (says s now)).1.status ≡ some s)
      × ((update_found b d (says s now)).0
          ≡ inc_counters b (metric_inc b (normalize_status d.status) (some s)) now)
unfolding update_found set_fields
step b d s now go =
    let (u, built, set) = build-applied d s (says s now) (normalize-name s) go in
    (
      rw (built, update_found) (rw (set, normalize-name)),
      rw (built, update_found) (rw (set, new_status, normalize-name)),
    )

applies :
    (current : Option Text) (c s : Status)
    → normalize_status current ≡ some c
    → advances c s ≡ true
    → should_apply_status current s ≡ true
unfolding should_apply_status
applies current c s e h = rw (e, should_apply_status) h

-- `n` times: the failed message is reported undelivered, and then failed again.
abbrev pub flips : ℕ → ℕ → List Callback
flips zero now = []
flips (suc n) now = says undelivered now ∷ says failed now ∷ flips n now

undelivered-flip :
    (b : Blast) (now : ℕ)
    → (inc_counters
        (inc_counters b (metric_inc b (some failed) (some undelivered)) now)
        (metric_inc
          (inc_counters b (metric_inc b (some failed) (some undelivered)) now)
          (some undelivered)
          (some failed))
        now).undelivered_count
      ≡ b.undelivered_count + 1
unfolding inc_counters metric_inc
undelivered-flip b now = omega arith

-- `undelivered_count` is not bounded by the recipients: for a recipient that has failed, callbacks that alternate between `undelivered` and `failed` add one to it in each round.
pub undelivered_drift :
    (n now : ℕ) (b : Blast) (d : DeliveryDoc)
    → normalize_status d.status ≡ some failed
    → (update_all b d (flips n now)).0.undelivered_count ≡ b.undelivered_count + n
unfolding update_all advances status_eq is_failure_status
undelivered_drift zero now b d e = omega arith
undelivered_drift (suc n) now b d e =
    let r1 = update_found b d (says undelivered now) in
    let (e1, c1) = step b d undelivered now (applies d.status failed undelivered e refl) in
    let r2 = update_found r1.0 r1.1 (says failed now) in
    let (e2, c2) = step r1.0 r1.1 failed now (applies r1.1.status undelivered failed e1 refl) in
    let once : r2.0.undelivered_count ≡ b.undelivered_count + 1 =
      rw (c2, e1, c1, e) (undelivered-flip b now) in
    omega (arith, undelivered_drift n now r2.0 r2.1 e2, once)

sent-direct :
    (b : Blast) (now : ℕ)
    → b.sent_count < b.total_recipients
    → (inc_counters b (metric_inc b (some queued) (some delivered)) now).sent_count
      ≡ b.sent_count + 1
unfolding inc_counters metric_inc
sent-direct b now h = ground arith

sent-stepwise :
    (b c : Blast) (now : ℕ)
    → c ≡ inc_counters b (metric_inc b (some queued) (some sent)) now
    → (inc_counters c (metric_inc c (some sent) (some delivered)) now).sent_count ≡ b.sent_count
unfolding inc_counters metric_inc
sent-stepwise b c now e = rw e (omega arith)

-- A recipient that is stored as `queued`, in a blast with fewer sent than recipients, is added to
-- `sent_count`
-- when its first callback says `delivered`, but not when the provider reports `sent` before.
pub sent_drift :
    (now : ℕ) (b : Blast) (d : DeliveryDoc)
    → normalize_status d.status ≡ some queued
    → b.sent_count < b.total_recipients
    → ((update_all b d (says delivered now ∷ [])).0.sent_count ≡ b.sent_count + 1)
      × ((update_all b d (says sent now ∷ says delivered now ∷ [])).0.sent_count ≡ b.sent_count)
unfolding update_all advances status_eq is_failure_status success_rank
sent_drift now b d e lt =
    let (_, c) = step b d delivered now (applies d.status queued delivered e refl) in
    let r1 = update_found b d (says sent now) in
    let (e1, c1) = step b d sent now (applies d.status queued sent e refl) in
    let (_, c2) = step r1.0 r1.1 delivered now (applies r1.1.status sent delivered e1 refl) in
    (rw (c, e) (sent-direct b now lt), rw (c2, e1) (sent-stepwise b r1.0 now (rw e at c1)))
