-- ===== src/Billing/Manual.antt =====
-- A plan that was set by hand.
use ai_wa_chat_agent_be.Prelude.{
  ℕ, ◌≡◌, refl, ◌∙◌, ap, ◌⊎◌, inl, inr, false, Option, none, some, List, [], ◌∷◌, ◌==◌, Bool-cases,
}
use ai_wa_chat_agent_be.Plans.{Plan, normalize_plan_key, stripe_checkout}
use ai_wa_chat_agent_be.Billing.Accounts.{
  Account, Resolved, conflict, nobody, found, Subscription, update_account, is_manual_plan,
  keep_manual_plan, subscription_plan, deleted_fields, subscription_fields,
}
use ai_wa_chat_agent_be.Billing.Handlers.{
  Accounts, Settings, Session, write, on_resolved, apply_plan, apply_subscription, apply_deleted,
  checkout_fields, handle_checkout_completed, invoice_fields, handle_invoice, trial_fields,
  handle_trial_will_end,
}
use ai_wa_chat_agent_be.Billing.Webhook.{
  EventBody, checkout_completed, subscription_changed, subscription_deleted, trial_will_end,
  invoice_event, ignored, StripeEvent, handle, Store, ClaimVerdict, claimed, already_processed,
  busy, verdict_of, finish_webhook, run_claimed, stripe_webhook, keep_claim, interrupted_webhook,
  Delivery, delivered, interrupted, deliver, deliver_all, mark, processing,
}

-- The account is the same, and its plan and status are if the plan was set by hand.
pub record IsUntouched (x y : Account) : Type 0 where
  pub id : x.id ≡ y.id
  pub user : (is_manual_plan x.user ≡ false) ⊎ (x.user ≡ y.user)

abbrev pub AreUntouched : Accounts → Accounts → Type 0
AreUntouched [] [] = Unit
AreUntouched [] (y ∷ ys) = ⊥
AreUntouched (x ∷ xs) [] = ⊥
AreUntouched (x ∷ xs) (y ∷ ys) = IsUntouched x y × AreUntouched xs ys

IsUntouched-trans : (x y z : Account) → IsUntouched x y → IsUntouched y z → IsUntouched x z
IsUntouched-trans x y z h k = record { id = h.id ∙ k.id; user = user_trans h.user k.user }
  where
    user_trans :
        (is_manual_plan x.user ≡ false) ⊎ (x.user ≡ y.user)
        → (is_manual_plan y.user ≡ false) ⊎ (y.user ≡ z.user)
        → (is_manual_plan x.user ≡ false) ⊎ (x.user ≡ z.user)
    user_trans (inl free) k = inl free
    user_trans (inr same) (inl free) = inl (ap is_manual_plan same ∙ free)
    user_trans (inr same) (inr e) = inr (same ∙ e)

AreUntouched-refl : (xs : Accounts) → AreUntouched xs xs
AreUntouched-refl [] = tt
AreUntouched-refl (x ∷ xs) = (record { id = refl; user = inr refl }, AreUntouched-refl xs)

AreUntouched-trans :
    (xs ys zs : Accounts) → AreUntouched xs ys → AreUntouched ys zs → AreUntouched xs zs
AreUntouched-trans [] [] zs h k = k
AreUntouched-trans [] (y ∷ ys) zs h k = absurd h
AreUntouched-trans (x ∷ xs) [] zs h k = absurd h
AreUntouched-trans (x ∷ xs) (y ∷ ys) [] h k = absurd k
AreUntouched-trans (x ∷ xs) (y ∷ ys) (z ∷ zs) (hx, h) (kx, k) =
    (IsUntouched-trans x y z hx kx, AreUntouched-trans xs ys zs h k)

-- A write to any account leaves it so.
abbrev Spares : (Account → Account) → Type 0
Spares f = (a : Account) → IsUntouched a (f a)

write-Spares : (f : Account → Account) → ((a : Account) → a.id ≡ (f a).id) → Spares (write f)
unfolding keep_manual_plan
write-Spares f same a = elim (Bool-cases (is_manual_plan a.user)) [
  | inl manual ↦ rw manual (record { id = same a; user = inr refl })
  | inr free ↦ rw free (record { id = same a; user = inl free })
]

update_account-AreUntouched :
    (uid : ℕ) (f : Account → Account)
    → Spares f
    → (xs : Accounts) → AreUntouched xs (update_account uid f xs)
unfolding update_account
update_account-AreUntouched uid f spares [] = tt
update_account-AreUntouched uid f spares (x ∷ xs) = elim (Bool-cases (x.id == uid)) [
  | inl y ↦ rw y (spares x, AreUntouched-refl xs)
  | inr n ↦
      rw n (record { id = refl; user = inr refl }, update_account-AreUntouched uid f spares xs)
]

abbrev OutcomeSpares : Accounts → Option Accounts → Type 0
OutcomeSpares xs none = Unit
OutcomeSpares xs (some ys) = AreUntouched xs ys

on_resolved-OutcomeSpares :
    (f : Account → Account)
    → Spares f
    → (r : Resolved) (xs : Accounts) → OutcomeSpares xs (on_resolved f r xs)
unfolding on_resolved
on_resolved-OutcomeSpares f spares conflict xs = tt
on_resolved-OutcomeSpares f spares nobody xs = AreUntouched-refl xs
on_resolved-OutcomeSpares f spares (found uid) xs = update_account-AreUntouched uid f spares xs

apply_plan-OutcomeSpares :
    (now : ℕ) (sub : Subscription) (p : Option Plan) (r : Resolved) (xs : Accounts)
    → OutcomeSpares xs (apply_plan now sub p r xs)
unfolding apply_plan subscription_fields
apply_plan-OutcomeSpares now sub none conflict xs = tt
apply_plan-OutcomeSpares now sub none nobody xs = AreUntouched-refl xs
apply_plan-OutcomeSpares now sub none (found uid) xs = tt
apply_plan-OutcomeSpares now sub (some p) r xs =
    on_resolved-OutcomeSpares _ (write-Spares (subscription_fields now sub p) (λ a. refl)) r xs

checkout_fields-id :
    (cfg : Settings) (now : ℕ) (session : Session) (a : Account)
    → a.id ≡ (checkout_fields cfg now session a).id
unfolding checkout_fields
checkout_fields-id cfg now session a =
    elim (Bool-cases (stripe_checkout (normalize_plan_key session.metadata_plan))) [
      | inl y ↦ rw y refl
      | inr n ↦ rw n refl
    ]

handle-OutcomeSpares :
    (cfg : Settings) (now : ℕ) (body : EventBody) (xs : Accounts)
    → OutcomeSpares xs (handle cfg now body xs)
unfolding handle apply_subscription apply_deleted handle_checkout_completed handle_invoice
    handle_trial_will_end deleted_fields invoice_fields trial_fields
handle-OutcomeSpares cfg now (checkout_completed session) xs =
    on_resolved-OutcomeSpares _
      (write-Spares (checkout_fields cfg now session) (checkout_fields-id cfg now session)) _ xs
handle-OutcomeSpares cfg now (subscription_changed sub) xs =
    apply_plan-OutcomeSpares now sub (subscription_plan cfg.prices sub) _ xs
handle-OutcomeSpares cfg now (subscription_deleted sub) xs =
    on_resolved-OutcomeSpares _ (write-Spares (deleted_fields now sub) (λ a. refl)) _ xs
handle-OutcomeSpares cfg now (trial_will_end sub) xs =
    on_resolved-OutcomeSpares (trial_fields now sub) (λ a. record { id = refl; user = inr refl }) _
      xs
handle-OutcomeSpares cfg now (invoice_event payment invoice) xs =
    on_resolved-OutcomeSpares _ (write-Spares (invoice_fields now payment invoice) (λ a. refl)) _ xs
handle-OutcomeSpares cfg now ignored xs = AreUntouched-refl xs

finish_webhook-AreUntouched :
    (e : List ℕ) (out : Option Accounts) (xs : Accounts) (s : Store)
    → OutcomeSpares xs out
    → s.accounts ≡ xs
    → AreUntouched xs (finish_webhook e out s).1.accounts
unfolding finish_webhook
finish_webhook-AreUntouched e none xs s h same = rw same (AreUntouched-refl xs)
finish_webhook-AreUntouched e (some ys) xs s h same = h

run_claimed-AreUntouched :
    (cfg : Settings) (now : ℕ) (e : StripeEvent) (v : ClaimVerdict) (s : Store)
    → AreUntouched s.accounts (run_claimed cfg now e v s).1.accounts
unfolding run_claimed
run_claimed-AreUntouched cfg now e claimed s =
    finish_webhook-AreUntouched e.id (handle cfg now e.body s.accounts) s.accounts
      (mark e.id (processing now) s) (handle-OutcomeSpares cfg now e.body s.accounts) refl
run_claimed-AreUntouched cfg now e already_processed s = AreUntouched-refl s.accounts
run_claimed-AreUntouched cfg now e busy s = AreUntouched-refl s.accounts

keep_claim-accounts :
    (now : ℕ) (e : StripeEvent) (v : ClaimVerdict) (s : Store)
    → (keep_claim now e v s).accounts ≡ s.accounts
unfolding keep_claim
keep_claim-accounts now e claimed s = refl
keep_claim-accounts now e already_processed s = refl
keep_claim-accounts now e busy s = refl

deliver-AreUntouched :
    (cfg : Settings) (d : Delivery) (s : Store) → AreUntouched s.accounts (deliver cfg d s).accounts
unfolding deliver stripe_webhook interrupted_webhook
deliver-AreUntouched cfg (delivered now e) s =
    run_claimed-AreUntouched cfg now e (verdict_of cfg now e s) s
deliver-AreUntouched cfg (interrupted now e) s =
    rw (keep_claim-accounts now e (verdict_of cfg now e s) s) (AreUntouched-refl s.accounts)

-- Whatever events of Stripe are delivered, in whatever order and however often, interrupted ones
-- included: no account is lost or gets another id, and one whose plan was set by hand, or is
-- Enterprise, keeps its plan and its subscription status.
pub deliver_all-AreUntouched :
    (cfg : Settings) (ds : List Delivery) (s : Store)
    → AreUntouched s.accounts (deliver_all cfg ds s).accounts
unfolding deliver_all
deliver_all-AreUntouched cfg [] s = AreUntouched-refl s.accounts
deliver_all-AreUntouched cfg (d ∷ ds) s =
    AreUntouched-trans s.accounts _ _ (deliver-AreUntouched cfg d s)
      (deliver_all-AreUntouched cfg ds (deliver cfg d s))
