-- ===== src/Engine/Once.antt =====
-- The provider calls of app/workers/campaign_tasks.py under the claims of app/services/idempotency.py.
use ai_wa_chat_agent_be.Prelude.{
  ℕ, ◌+◌, ◌≤◌, ◌<◌, ◌≡◌, ◌⊎◌, inl, inr, true, false, ◌&&◌, List, [], ◌∷◌, arith, ◌==◌, max, count,
  All, if◌then◌else◌, Bool-cases, Option-cases,
}
use ai_wa_chat_agent_be.Campaign.{is_terminal}
use ai_wa_chat_agent_be.Engine.Store.{
  Recipient, Store, Config, find_one, has_id, set_recipient, claim_live, add_claim,
  refresh_campaign_counters, is_paused,
}
use ai_wa_chat_agent_be.Engine.Send.{
  Attempt, is_claimable, start_attempt, has_message, attempt_send, send_claimed,
  send_campaign_recipient,
}
use ai_wa_chat_agent_be.Engine.Run.{
  Event, start, batch, finalize, pause, resume, cancel, retry, send, callback, event_time, step,
  run,
}
use ai_wa_chat_agent_be.Engine.Calls.{
  Quiet, attempt_send-calls, send_claimed-fresh, send_claimed-old, send_claimed-meta, batch-Quiet,
  start-Quiet, callback-Quiet, pause-Quiet, resume-Quiet, cancel-Quiet, retry-Quiet, complete-Quiet,
}

-- A claim that is live at `h` was live before.
claim_live-earlier :
    (t h rid : ℕ) (cs : List (ℕ × ℕ))
    → t ≤ h
    → claim_live h rid cs ≡ true
    → claim_live t rid cs ≡ true
unfolding claim_live
claim_live-earlier t h rid [] le l = cc
claim_live-earlier t h rid ((i, x) ∷ cs) le l = ground (arith, claim_live-earlier t h rid cs le)

abbrev pub calls_for : ℕ → Store → ℕ
calls_for rid s = count (λ i. i == rid) s.calls

-- Up to `h` the claims stand for the calls.
abbrev pub IsClaimed : ℕ → Store → Type 0
IsClaimed h s = (rid : ℕ) → calls_for rid s ≤ (if claim_live h rid s.claims then 1 else 0)

Quiet-IsClaimed : (h : ℕ) (s t : Store) → Quiet s t → IsClaimed h s → IsClaimed h t
Quiet-IsClaimed h s t (a, b) c rid = rw (a, b) (c rid)

-- An event at `t` falls in the window that ends with `h`.
abbrev pub InWindow : Config → ℕ → ℕ → Type 0
InWindow cfg h t = (t ≤ h) × (h < t + max 60 cfg.idempotency_ttl)

one_call :
    (cfg : Config) (h now rid : ℕ) (s t : Store)
    → InWindow cfg h now
    → claim_live now rid s.claims ≡ false
    → t.claims ≡ (rid, now + max 60 cfg.idempotency_ttl) ∷ s.claims
    → (t.calls ≡ s.calls) ⊎ (t.calls ≡ rid ∷ s.calls)
    → IsClaimed h s
    → IsClaimed h t
unfolding claim_live
one_call cfg h now rid s t (lo, hi) fresh e calls c j = rw e (elim calls [
  | inl k ↦ rw k (ground (arith, c j, c rid, claim_live-earlier now h rid s.claims lo))
  | inr k ↦ rw k (ground (arith, c j, c rid, claim_live-earlier now h rid s.claims lo))
])

send_claimed-IsClaimed :
    (cfg : Config) (h now rid : ℕ) (r : Recipient) (a : Attempt) (s : Store)
    → InWindow cfg h now
    → IsClaimed h s
    → IsClaimed h (send_claimed cfg now rid r a s)
unfolding set_recipient add_claim
send_claimed-IsClaimed cfg h now rid r a s w c =
    elim (Bool-cases (s.campaign.is_meta && has_message r.provider_message_id)) [
      | inl m ↦
          Quiet-IsClaimed h s (send_claimed cfg now rid r a s)
            (send_claimed-meta cfg now rid r a s m) c
      | inr nm ↦ elim (Bool-cases (claim_live now rid s.claims)) [
        | inl old ↦ rw (send_claimed-old cfg now rid r a s nm old) c
        | inr fresh ↦
            let held = add_claim cfg now rid (set_recipient rid start_attempt s) in
            let (e, k) = attempt_send-calls cfg now rid (r.attempt_count + 1) a held in
            rw (send_claimed-fresh cfg now rid r a s nm fresh) (
              one_call cfg h now rid s (attempt_send cfg now rid (r.attempt_count + 1) a held) w
                fresh e k c)
      ]
    ]

send-IsClaimed :
    (cfg : Config) (h now rid : ℕ) (a : Attempt) (s : Store)
    → InWindow cfg h now
    → IsClaimed h s
    → IsClaimed h (send_campaign_recipient cfg now rid a s)
unfolding send_campaign_recipient refresh_campaign_counters
send-IsClaimed cfg h now rid a s w c = elim (Bool-cases (is_paused s.campaign.status)) [
  | inl p ↦ rw (p, send_campaign_recipient) c
  | inr np ↦ elim (Bool-cases (is_terminal s.campaign.status)) [
    | inl d ↦ rw (np, d, send_campaign_recipient) c
    | inr nd ↦ elim (Option-cases (find_one (λ r. has_id rid r && is_claimable r) s.recipients)) [
      | inl e ↦ rw (np, nd, e, send_campaign_recipient) c
      | inr (r, e) ↦
          rw (np, nd, e, send_campaign_recipient) (send_claimed-IsClaimed cfg h now rid r a s w c)
    ]
  ]
]

step-IsClaimed :
    (cfg : Config) (h : ℕ) (e : Event) (s : Store)
    → InWindow cfg h (event_time e)
    → IsClaimed h s
    → IsClaimed h (step cfg e s)
unfolding step event_time
step-IsClaimed cfg h (start now) s w c =
    Quiet-IsClaimed h s (step cfg (start now) s) (start-Quiet cfg now s) c
step-IsClaimed cfg h (batch now) s w c =
    Quiet-IsClaimed h s (step cfg (batch now) s) (batch-Quiet cfg now s) c
step-IsClaimed cfg h (finalize now) s w c =
    Quiet-IsClaimed h s (step cfg (finalize now) s) (complete-Quiet now s) c
step-IsClaimed cfg h (pause now) s w c =
    Quiet-IsClaimed h s (step cfg (pause now) s) (pause-Quiet now s) c
step-IsClaimed cfg h (resume now) s w c =
    Quiet-IsClaimed h s (step cfg (resume now) s) (resume-Quiet s) c
step-IsClaimed cfg h (cancel now) s w c =
    Quiet-IsClaimed h s (step cfg (cancel now) s) (cancel-Quiet now s) c
step-IsClaimed cfg h (retry now) s w c =
    Quiet-IsClaimed h s (step cfg (retry now) s) (retry-Quiet s) c
step-IsClaimed cfg h (send now rid a) s w c = send-IsClaimed cfg h now rid a s w c
step-IsClaimed cfg h (callback now rid st) s w c =
    Quiet-IsClaimed h s (step cfg (callback now rid st) s) (callback-Quiet now rid st s) c

run-IsClaimed :
    (cfg : Config) (h : ℕ) (es : List Event) (s : Store)
    → All (λ e. InWindow cfg h (event_time e)) es
    → IsClaimed h s
    → IsClaimed h (run cfg es s)
unfolding run
run-IsClaimed cfg h [] s w c = c
run-IsClaimed cfg h (e ∷ es) s w c =
    run-IsClaimed cfg h es (step cfg e s) w.1 (step-IsClaimed cfg h e s w.0 c)

-- From a store without provider calls, in any sequence of events within one time to live of the
-- idempotency key (no less than a minute), with jobs repeated, delayed and reordered at will, and with
-- pauses, resumes and retries between them, the provider is called at most once for each recipient.
pub calls_for-run :
    (cfg : Config) (h : ℕ) (es : List Event) (s : Store) (rid : ℕ)
    → All (λ e. InWindow cfg h (event_time e)) es
    → s.calls ≡ []
    → calls_for rid (run cfg es s) ≤ 1
calls_for-run cfg h es s rid w none_yet =
    let c = run-IsClaimed cfg h es s w (λ i. rw none_yet (ground arith)) in ground (arith, c rid)
