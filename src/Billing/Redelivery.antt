-- ===== src/Billing/Redelivery.antt =====
-- Events that are delivered again.
use ai_wa_chat_agent_be.Prelude.{
  ℕ, ◌+◌, ◌<◌, ◌≡◌, refl, ◌∙◌, ap, inl, inr, true, false, Option, none, some, List, [], ◌∷◌, arith,
  if◌then◌else◌, ltb, Bool-cases, Option-cases,
}
use ai_wa_chat_agent_be.Prelude.Text.{Text, text_eq, text_eq_refl, eq_of_text_eq}
use ai_wa_chat_agent_be.Billing.Handlers.{Accounts, Settings}
use ai_wa_chat_agent_be.Billing.Webhook.{
  StripeEvent, handle, Claim, processing, processed, failed, find_claim, set_claim, Store,
  ClaimVerdict, claimed, already_processed, busy, claim_verdict, verdict_of, mark, finish_webhook,
  run_claimed, stripe_webhook, keep_claim, interrupted_webhook, Delivery, delivered, interrupted,
  deliver, deliver_all,
}

text_eq-sym : (s t : Text) → text_eq s t ≡ false → text_eq t s ≡ false
text_eq-sym s t ne = elim (Bool-cases (text_eq t s)) [
  | inl y ↦ let same : text_eq s t ≡ true = rw (eq_of_text_eq t s y) (text_eq_refl s) in cc
  | inr n ↦ n
]

find_claim-set_claim :
    (e f : Text) (c : Claim) (cs : List (Text × Claim))
    → find_claim e (set_claim f c cs) ≡ (if text_eq e f then some c else find_claim e cs)
unfolding find_claim set_claim
find_claim-set_claim e f c [] = refl
find_claim-set_claim e f c ((g, d) ∷ cs) = elim (Bool-cases (text_eq f g)) [
  | inl y ↦ elim (Bool-cases (text_eq e g)) [
    | inl z ↦ rw (y, eq_of_text_eq f g y, z) refl
    | inr z ↦ rw (y, eq_of_text_eq f g y, z) refl
  ]
  | inr n ↦ elim (Bool-cases (text_eq e g)) [
    | inl z ↦ rw (n, eq_of_text_eq e g z, text_eq_refl g, text_eq-sym f g n) refl
    | inr z ↦ rw (n, z) (find_claim-set_claim e f c cs)
  ]
]

find_claim-mark_self :
    (e : Text) (c : Claim) (s : Store) → find_claim e (mark e c s).claims ≡ some c
find_claim-mark_self e c s = rw (find_claim-set_claim e e c s.claims, text_eq_refl e) refl

find_claim-mark :
    (e f : Text) (c : Claim) (s : Store)
    → text_eq e f ≡ false
    → find_claim e (mark f c s).claims ≡ find_claim e s.claims
find_claim-mark e f c s ne = rw (find_claim-set_claim e f c s.claims, ne) refl

module _ (e : Text) (f : StripeEvent) (ne : text_eq e f.id ≡ false) where
  finish_webhook-other :
      (out : Option Accounts) (s : Store)
      → find_claim e (finish_webhook f.id out s).1.claims ≡ find_claim e s.claims
  unfolding finish_webhook
  finish_webhook-other none s = find_claim-mark e f.id failed s ne
  finish_webhook-other (some xs) s =
      find_claim-mark e f.id processed (record s { accounts = xs }) ne

  run_claimed-other :
      (cfg : Settings) (now : ℕ) (v : ClaimVerdict) (s : Store)
      → find_claim e (run_claimed cfg now f v s).1.claims ≡ find_claim e s.claims
  unfolding run_claimed
  run_claimed-other cfg now claimed s =
      finish_webhook-other (handle cfg now f.body s.accounts) (mark f.id (processing now) s)
      ∙ find_claim-mark e f.id (processing now) s ne
  run_claimed-other cfg now already_processed s = refl
  run_claimed-other cfg now busy s = refl

  keep_claim-other :
      (now : ℕ) (v : ClaimVerdict) (s : Store)
      → find_claim e (keep_claim now f v s).claims ≡ find_claim e s.claims
  unfolding keep_claim
  keep_claim-other now claimed s = find_claim-mark e f.id (processing now) s ne
  keep_claim-other now already_processed s = refl
  keep_claim-other now busy s = refl

abbrev IsProcessed : Text → Store → Type 0
IsProcessed e s = find_claim e s.claims ≡ some processed

stripe_webhook-processed :
    (cfg : Settings) (now : ℕ) (e : StripeEvent) (s : Store)
    → IsProcessed e.id s
    → stripe_webhook cfg now e s ≡ (200, s)
unfolding stripe_webhook claim_verdict run_claimed
stripe_webhook-processed cfg now e s h = rw h refl

stripe_webhook-busy :
    (cfg : Settings) (now : ℕ) (e : StripeEvent) (s : Store)
    → verdict_of cfg now e s ≡ busy
    → stripe_webhook cfg now e s ≡ (200, s)
unfolding stripe_webhook run_claimed
stripe_webhook-busy cfg now e s h = rw h refl

mark-busy :
    (cfg : Settings) (now later : ℕ) (e : StripeEvent) (s : Store)
    → later < now + cfg.webhook_claim_ttl
    → verdict_of cfg later e (mark e.id (processing now) s) ≡ busy
unfolding claim_verdict
mark-busy cfg now later e s h =
    let early : ltb later (now + cfg.webhook_claim_ttl) ≡ true = ground arith in
    rw (find_claim-mark_self e.id (processing now) s, early) refl

interrupted_webhook-processed :
    (cfg : Settings) (now : ℕ) (e : StripeEvent) (s : Store)
    → IsProcessed e.id s
    → interrupted_webhook cfg now e s ≡ s
unfolding interrupted_webhook claim_verdict keep_claim
interrupted_webhook-processed cfg now e s h = rw h refl

module _ (cfg : Settings) (e : Text) (now : ℕ) (f : StripeEvent) (s : Store) where
  stripe_webhook-other :
      text_eq e f.id ≡ false
      → find_claim e (stripe_webhook cfg now f s).1.claims ≡ find_claim e s.claims
  unfolding stripe_webhook
  stripe_webhook-other n = run_claimed-other e f n cfg now (verdict_of cfg now f s) s

  interrupted_webhook-other :
      text_eq e f.id ≡ false
      → find_claim e (interrupted_webhook cfg now f s).claims ≡ find_claim e s.claims
  unfolding interrupted_webhook
  interrupted_webhook-other n = keep_claim-other e f n now (verdict_of cfg now f s) s

deliver-IsProcessed :
    (cfg : Settings) (e : Text) (d : Delivery) (s : Store)
    → IsProcessed e s
    → IsProcessed e (deliver cfg d s)
unfolding deliver
deliver-IsProcessed cfg e (delivered now f) s h = elim (Bool-cases (text_eq e f.id)) [
  | inl y ↦
      let same : IsProcessed f.id s = rw (← eq_of_text_eq e f.id y) h in
      ap (λ r. find_claim e r.1.claims) (stripe_webhook-processed cfg now f s same) ∙ h
  | inr n ↦ stripe_webhook-other cfg e now f s n ∙ h
]
deliver-IsProcessed cfg e (interrupted now f) s h = elim (Bool-cases (text_eq e f.id)) [
  | inl y ↦
      let same : IsProcessed f.id s = rw (← eq_of_text_eq e f.id y) h in
      ap (λ r. find_claim e r.claims) (interrupted_webhook-processed cfg now f s same) ∙ h
  | inr n ↦ interrupted_webhook-other cfg e now f s n ∙ h
]

deliver_all-IsProcessed :
    (cfg : Settings) (e : Text) (ds : List Delivery) (s : Store)
    → IsProcessed e s
    → IsProcessed e (deliver_all cfg ds s)
unfolding deliver_all
deliver_all-IsProcessed cfg e [] s h = h
deliver_all-IsProcessed cfg e (d ∷ ds) s h =
    deliver_all-IsProcessed cfg e ds (deliver cfg d s) (deliver-IsProcessed cfg e d s h)

module _ (cfg : Settings) (now : ℕ) (e : StripeEvent) (s : Store)
    (is_claimed : verdict_of cfg now e s ≡ claimed) where
  -- what a claimed delivery comes to
  stripe_webhook-claimed :
      stripe_webhook cfg now e s
      ≡ finish_webhook e.id (handle cfg now e.body s.accounts) (mark e.id (processing now) s)
  unfolding stripe_webhook run_claimed
  stripe_webhook-claimed = rw is_claimed refl

  accepted-IsProcessed :
      (stripe_webhook cfg now e s).0 ≡ 200 → IsProcessed e.id (stripe_webhook cfg now e s).1
  unfolding finish_webhook
  accepted-IsProcessed h = elim (Option-cases (handle cfg now e.body s.accounts)) [
    | inl raised ↦ absurd (omega (arith, rw (stripe_webhook-claimed, raised) at h))
    | inr (xs, done) ↦
        rw (stripe_webhook-claimed, done)
          (find_claim-mark_self e.id processed
            (record (mark e.id (processing now) s) { accounts = xs }))
  ]

  -- An event that was claimed and answered with 200: after whatever deliveries of this and other events,
  -- interrupted ones included, it is answered with 200 once more at any time, and changes nothing.
  pub stripe_webhook-redelivered :
      (stripe_webhook cfg now e s).0 ≡ 200
      → (ds : List Delivery) (later : ℕ)
      → let t = deliver_all cfg ds (stripe_webhook cfg now e s).1 in
        stripe_webhook cfg later e t ≡ (200, t)
  stripe_webhook-redelivered h ds later =
      stripe_webhook-processed cfg later e _
        (deliver_all-IsProcessed cfg e.id ds _ (accepted-IsProcessed h))

  -- An event that was claimed and answered with 500: no account is changed, and at any time, if nothing
  -- came between, it is claimed again.
  pub stripe_webhook-refused :
      (stripe_webhook cfg now e s).0 ≡ 500
      → (later : ℕ)
      → ((stripe_webhook cfg now e s).1.accounts ≡ s.accounts)
        × (verdict_of cfg later e (stripe_webhook cfg now e s).1 ≡ claimed)
  unfolding finish_webhook claim_verdict
  stripe_webhook-refused h later = elim (Option-cases (handle cfg now e.body s.accounts)) [
    | inl raised ↦
        rw (stripe_webhook-claimed, raised)
          (refl, rw (find_claim-mark_self e.id failed (mark e.id (processing now) s)) refl)
    | inr (xs, done) ↦ absurd (omega (arith, rw (stripe_webhook-claimed, done) at h))
  ]

  -- An event whose run is interrupted after the claim: within the life of the claim it is answered with
  -- 200 when it is delivered again, though nothing of it was applied.
  pub interrupted_is_acknowledged :
      (later : ℕ)
      → later < now + cfg.webhook_claim_ttl
      → let t = interrupted_webhook cfg now e s in
        (stripe_webhook cfg later e t ≡ (200, t)) × (t.accounts ≡ s.accounts)
  unfolding interrupted_webhook keep_claim
  interrupted_is_acknowledged later h =
      rw is_claimed (stripe_webhook-busy cfg later e _ (mark-busy cfg now later e s h), refl)
