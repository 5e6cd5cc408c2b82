-- ===== src/Billing/Webhook.antt =====
-- app/routes/billing.py: the claim of an event and the route. A run that ends with its process after the
-- claim is `interrupted_webhook`. The signature is checked before; the times of a claim that are not
-- read again are not modelled.
use ai_wa_chat_agent_be.Prelude.{ℕ, ◌+◌, Option, none, some, List, [], ◌∷◌, if◌then◌else◌, ltb}
use ai_wa_chat_agent_be.Prelude.Text.{Text, text_eq}
use ai_wa_chat_agent_be.Billing.Accounts.{Subscription}
use ai_wa_chat_agent_be.Billing.Handlers.{
  Accounts, Settings, Session, PaymentStatus, Invoice, apply_subscription, apply_deleted,
  handle_checkout_completed, handle_invoice, handle_trial_will_end,
}

pub data EventBody : Type 0 where
  checkout_completed : Session → EventBody
  subscription_changed subscription_deleted trial_will_end : Subscription → EventBody
  invoice_event : PaymentStatus → Invoice → EventBody
  ignored : EventBody  -- checkout.session.expired, and every other type

pub record StripeEvent : Type 0 where
  pub id : Text
  pub body : EventBody

-- The dispatch of the route.
unfoldable pub handle : Settings → ℕ → EventBody → Accounts → Option Accounts
handle cfg now (checkout_completed session) accounts =
    handle_checkout_completed cfg now session accounts
handle cfg now (subscription_changed sub) accounts = apply_subscription cfg now sub accounts
handle cfg now (subscription_deleted sub) accounts = apply_deleted now sub accounts
handle cfg now (trial_will_end sub) accounts = handle_trial_will_end now sub accounts
handle cfg now (invoice_event payment invoice) accounts =
    handle_invoice now payment invoice accounts
handle cfg now ignored accounts = some accounts

-- A document of stripe_webhook_events: since when it is processed, or how that ended.
pub data Claim : Type 0 where
  processing : ℕ → Claim
  processed failed : Claim

unfoldable pub find_claim : Text → List (Text × Claim) → Option Claim
find_claim e [] = none
find_claim e ((f, c) ∷ cs) = if text_eq e f then some c else find_claim e cs

unfoldable pub set_claim : Text → Claim → List (Text × Claim) → List (Text × Claim)
set_claim e c [] = (e, c) ∷ []
set_claim e c ((f, d) ∷ cs) =
    let rest = set_claim e c cs in if text_eq e f then (f, c) ∷ cs else (f, d) ∷ rest

pub data ClaimVerdict : Type 0 where
  claimed already_processed busy : ClaimVerdict

-- what _claim_webhook_event returns of the document that it finds
unfoldable pub claim_verdict : ℕ → ℕ → Option Claim → ClaimVerdict
claim_verdict ttl now none = claimed
claim_verdict ttl now (some processed) = already_processed
claim_verdict ttl now (some failed) = claimed
claim_verdict ttl now (some (processing started)) =
    if ltb now (started + ttl) then busy else claimed

pub record Store : Type 0 where
  pub accounts : Accounts
  pub claims : List (Text × Claim)

abbrev pub verdict_of : Settings → ℕ → StripeEvent → Store → ClaimVerdict
verdict_of cfg now e s = claim_verdict cfg.webhook_claim_ttl now (find_claim e.id s.claims)

abbrev pub mark : Text → Claim → Store → Store
mark e c s = record s { claims = set_claim e c s.claims }

-- the end of the route: _mark_webhook_processed or _mark_webhook_failed, and the answer
unfoldable pub finish_webhook : Text → Option Accounts → Store → ℕ × Store
finish_webhook e none s = (500, mark e failed s)
finish_webhook e (some accounts) s = (200, mark e processed (record s { accounts = accounts }))

unfoldable pub run_claimed : Settings → ℕ → StripeEvent → ClaimVerdict → Store → ℕ × Store
run_claimed cfg now e claimed s =
    finish_webhook e.id (handle cfg now e.body s.accounts) (mark e.id (processing now) s)
run_claimed cfg now e already_processed s = (200, s)
run_claimed cfg now e busy s = (200, s)

-- The status code and the store after a delivery.
unfoldable pub stripe_webhook : Settings → ℕ → StripeEvent → Store → ℕ × Store
stripe_webhook cfg now e s = run_claimed cfg now e (verdict_of cfg now e s) s

-- the claim alone
unfoldable pub keep_claim : ℕ → StripeEvent → ClaimVerdict → Store → Store
keep_claim now e claimed s = mark e.id (processing now) s
keep_claim now e already_processed s = s
keep_claim now e busy s = s

unfoldable pub interrupted_webhook : Settings → ℕ → StripeEvent → Store → Store
interrupted_webhook cfg now e s = keep_claim now e (verdict_of cfg now e s) s

-- Deliveries and interrupted ones, each at its time.
pub data Delivery : Type 0 where
  delivered interrupted : ℕ → StripeEvent → Delivery

unfoldable pub deliver : Settings → Delivery → Store → Store
deliver cfg (delivered now e) s = (stripe_webhook cfg now e s).1
deliver cfg (interrupted now e) s = interrupted_webhook cfg now e s

unfoldable pub deliver_all : Settings → List Delivery → Store → Store
deliver_all cfg [] s = s
deliver_all cfg (d ∷ ds) s = deliver_all cfg ds (deliver cfg d s)
