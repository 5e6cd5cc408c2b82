-- ===== src/Blast/Counters.antt =====
-- What a recipient adds to the counters of its blast in app/services/status_callback.py.
use ai_wa_chat_agent_be.Prelude.{
  ℕ, ◌+◌, ◌≤◌, ◌<◌, ◌≡◌, inl, inr, true, Option, none, some, List, [], ◌∷◌, arith, ltb,
  if◌then◌else◌, Option-cases,
}
use ai_wa_chat_agent_be.Prelude.Text.{Text}
use ai_wa_chat_agent_be.Delivery.{
  Status, queued, normalize_status, success_rank, advances, should_apply_status, DeliveryDoc,
  SetFields, set_fields, Callback, build_status_update,
}
use ai_wa_chat_agent_be.Delivery.Names.{normalize-name}
use ai_wa_chat_agent_be.Delivery.Monotone.{phase, doc_phase, build_status_update-status}
use ai_wa_chat_agent_be.Blast.{
  Blast, Shown, Increments, metric_inc, inc_counters, update_found, update_all,
}

-- What a recipient at a phase may still add to the counter that its phase `goal` is counted by.
abbrev pub room : ℕ → ℕ → ℕ
room p goal = if ltb p goal then 1 else 0

abbrev pub Counted : ℕ → Increments → Shown → Type 0
Counted p m new =
    (p ≤ phase new)
    × (m.sent + room (phase new) 40 ≤ room p 40)
    × (m.delivered + room (phase new) 50 ≤ room p 50)
    × (m.read + room (phase new) 60 ≤ room p 60)
    × (m.failed + room (phase new) 100 ≡ room p 100)
    × (phase new < 100 → m.delivered + room (phase new) 50 ≡ room p 50)
    × (phase new < 100 → m.read + room (phase new) 60 ≡ room p 60)

metric_inc-fresh : (b : Blast) (s : Status) → Counted 0 (metric_inc b none (some s)) (some s)
unfolding metric_inc success_rank
metric_inc-fresh b queued = ground arith
metric_inc-fresh b _ = ground arith

metric_inc-advances :
    (b : Blast) (old new : Status)
    → advances old new ≡ true
    → Counted (phase (some old)) (metric_inc b (some old) (some new)) (some new)
unfolding metric_inc advances success_rank
metric_inc-advances b queued new h = ground arith
metric_inc-advances b _ new h = ground arith

metric_inc-applied :
    (b : Blast) (current : Option Text) (s : Status)
    → should_apply_status current s ≡ true
    → Counted
        (phase (normalize_status current))
        (metric_inc b (normalize_status current) (some s))
        (some s)
unfolding should_apply_status
metric_inc-applied b current s h = elim (Option-cases (normalize_status current)) [
  | inl e ↦ rw e (metric_inc-fresh b s)
  | inr (c, e) ↦ rw e (metric_inc-advances b c s (rw (e, should_apply_status) at h))
]

metric_inc-same : (b : Blast) (old : Shown) → Counted (phase old) (metric_inc b old old) old
unfolding metric_inc
metric_inc-same b none = ground arith
metric_inc-same b (some queued) = ground arith
metric_inc-same b (some _) = ground arith

-- From the blast `b` and a recipient at the phase `p` to `b'` and `p'`.
abbrev pub Spends : Blast → ℕ → Blast → ℕ → Type 0
Spends b p b' p' =
    (p ≤ p')
    × (b'.sent_count + room p' 40 ≤ b.sent_count + room p 40)
    × (b'.delivered_count + room p' 50 ≤ b.delivered_count + room p 50)
    × (b'.read_count + room p' 60 ≤ b.read_count + room p 60)
    × (b'.failed_count + room p' 100 ≡ b.failed_count + room p 100)
    × (p' < 100 → b'.delivered_count + room p' 50 ≡ b.delivered_count + room p 50)
    × (p' < 100 → b'.read_count + room p' 60 ≡ b.read_count + room p 60)

inc_counters-Spends :
    (b : Blast) (m : Increments) (now p : ℕ) (new : Shown)
    → Counted p m new
    → Spends b p (inc_counters b m now) (phase new)
unfolding inc_counters
inc_counters-Spends b m now p new h = omega arith

update_found-status :
    (b : Blast) (d : DeliveryDoc) (cb : Callback) (u : SetFields)
    → build_status_update d cb ≡ some u
    → Spends b (doc_phase d) (update_found b d cb).0 (doc_phase (update_found b d cb).1)
unfolding update_found set_fields
update_found-status b d cb u e = elim (build_status_update-status d cb u e) [
  | inl kept ↦
      rw (e, update_found)
        (rw kept (
          inc_counters-Spends b _ cb.now (doc_phase d) (normalize_status d.status)
            (metric_inc-same b (normalize_status d.status))))
  | inr (s, _, set, go) ↦
      rw (e, update_found)
        (rw (set, normalize-name)
          (inc_counters-Spends b _ cb.now (doc_phase d) (some s)
            (metric_inc-applied b d.status s go)))
]

update_found-Spends :
    (b : Blast) (d : DeliveryDoc) (cb : Callback)
    → Spends b (doc_phase d) (update_found b d cb).0 (doc_phase (update_found b d cb).1)
unfolding update_found
update_found-Spends b d cb = elim (Option-cases (build_status_update d cb)) [
  | inl e ↦ rw (e, update_found) (omega arith)
  | inr (u, e) ↦ update_found-status b d cb u e
]

Spends-trans : (a b c : Blast) (p q r : ℕ) → Spends a p b q → Spends b q c r → Spends a p c r
Spends-trans a b c p q r (m, s, d, e, f, d', e') (m2, s2, d2, e2, f2, d2', e2') = (
  omega arith,
  omega arith,
  omega arith,
  omega arith,
  omega arith,
  λ lo. omega (arith, d' (omega arith), d2' lo),
  λ lo. omega (arith, e' (omega arith), e2' lo),
)

-- Over every list of callbacks a recipient's phase does not fall, and it adds at most one to each of
-- `sent_count`, `delivered_count` and `read_count`, and nothing to the counter of a milestone that it
-- had already passed. `failed_count` grows by one exactly when the recipient comes to a failure from
-- none, and where it does not end in a failure `delivered_count` and `read_count` grow by one exactly
-- when it newly came that far.
pub update_all-Spends :
    (b : Blast) (d : DeliveryDoc) (cbs : List Callback)
    → Spends b (doc_phase d) (update_all b d cbs).0 (doc_phase (update_all b d cbs).1)
unfolding update_all
update_all-Spends b d [] = omega arith
update_all-Spends b d (cb ∷ cbs) =
    let b1 = (update_found b d cb).0 in
    let d1 = (update_found b d cb).1 in
    let (b2, d2) = update_all b1 d1 cbs in
    Spends-trans b b1 b2 (doc_phase d) (doc_phase d1) (doc_phase d2) (update_found-Spends b d cb)
      (update_all-Spends b1 d1 cbs)
