-- ===== src/Billing/Handlers.antt =====
-- app/routes/billing.py: the handler of each event. `none` is an exception.
use ai_wa_chat_agent_be.Prelude.{ℕ, Option, none, some, List, [], ◌∷◌, if◌then◌else◌, ltb}
use ai_wa_chat_agent_be.Prelude.Text.{Text, codes, text_eq, is_empty, is_one_of}
use ai_wa_chat_agent_be.Plans.{Plan, plan_name, normalize_plan_key, stripe_checkout}
use ai_wa_chat_agent_be.Billing.Accounts.{
  Account, Resolved, conflict, nobody, found, Subscription, Prices, update_account, resolve_user_id,
  keep_manual_plan, set_plan, or_now, deleted_fields, subscription_fields, subscription_plan,
}

abbrev pub Accounts : Type 0
Accounts = List Account

pub record Settings : Type 0 where
  pub prices : Prices
  pub trial_days : ℕ
  pub webhook_claim_ttl : ℕ

-- A write that leaves a plan set by hand.
abbrev pub write : (Account → Account) → Account → Account
write f a = keep_manual_plan a (f a)

-- The write to the account that was found, if there is one.
unfoldable pub on_resolved : (Account → Account) → Resolved → Accounts → Option Accounts
on_resolved f conflict accounts = none
on_resolved f nobody accounts = some accounts
on_resolved f (found uid) accounts = some (update_account uid f accounts)

abbrev pub resolve_subscription : Subscription → Accounts → Resolved
resolve_subscription sub accounts = resolve_user_id sub.metadata_user sub.customer sub.id accounts

-- _apply_subscription of a subscription that is not deleted: a plan that is not known is refused after
-- the user was found.
unfoldable pub apply_plan : ℕ → Subscription → Option Plan → Resolved → Accounts → Option Accounts
apply_plan now sub none conflict accounts = none
apply_plan now sub none nobody accounts = some accounts
apply_plan now sub none (found uid) accounts = none
apply_plan now sub (some p) r accounts =
    on_resolved (write (subscription_fields now sub p)) r accounts

unfoldable pub apply_subscription : Settings → ℕ → Subscription → Accounts → Option Accounts
apply_subscription cfg now sub accounts =
    apply_plan now sub (subscription_plan cfg.prices sub) (resolve_subscription sub accounts)
      accounts

unfoldable pub apply_deleted : ℕ → Subscription → Accounts → Option Accounts
apply_deleted now sub accounts =
    on_resolved (write (deleted_fields now sub)) (resolve_subscription sub accounts) accounts

-- A session of the checkout; the user is that of the reference, or else of the metadata.
pub record Session : Type 0 where
  pub reference_user : Option ℕ
  pub metadata_user : Option ℕ
  pub metadata_plan : Option Text
  pub customer : Text
  pub subscription : Text

unfoldable pub checkout_fields : Settings → ℕ → Session → Account → Account
checkout_fields cfg now session a =
    let ids : Account = record a {
      subscription_updated_at = some now;
      stripe_customer_id =
          if is_empty session.customer then a.stripe_customer_id else session.customer;
      stripe_subscription_id =
          if is_empty session.subscription then a.stripe_subscription_id else session.subscription;
    } in
    let meta_plan = normalize_plan_key session.metadata_plan in
    let status = if ltb 0 cfg.trial_days then codes "trialing" else codes "active" in
    if stripe_checkout meta_plan then set_plan (plan_name meta_plan) status ids else ids

-- the user of a session, before the customer is checked
unfoldable pub session_user : Session → Accounts → Resolved
session_user session accounts = elim session.reference_user [
  | some uid ↦ found uid
  | none ↦ resolve_user_id session.metadata_user session.customer session.subscription accounts
]

unfoldable pub check_session : Session → Accounts → Resolved → Resolved
check_session session accounts (found uid) =
    resolve_user_id (some uid) session.customer session.subscription accounts
check_session session accounts conflict = conflict
check_session session accounts nobody = nobody

unfoldable pub handle_checkout_completed : Settings → ℕ → Session → Accounts → Option Accounts
handle_checkout_completed cfg now session accounts =
    on_resolved (write (checkout_fields cfg now session))
      (check_session session accounts (session_user session accounts)) accounts

pub data PaymentStatus : Type 0 where
  paid failed finalized action_required : PaymentStatus

pub record Invoice : Type 0 where
  pub id : Text
  pub metadata_user : Option ℕ
  pub customer : Text
  pub subscription : Text
  pub paid_at : Option ℕ

abbrev payment_name : PaymentStatus → Text
payment_name paid = codes "paid"
payment_name failed = codes "failed"
payment_name finalized = codes "finalized"
payment_name action_required = codes "action_required"

-- the status of the subscription after a payment
unfoldable pub status_when_paid : Option Text → Option Text
status_when_paid none = some (codes "active")
status_when_paid (some st) =
    if is_one_of st (codes "none" ∷ codes "incomplete" ∷ codes "trialing" ∷ codes "past_due" ∷ [])
    then some (if text_eq st (codes "trialing") then st else codes "active")
    else some st

abbrev status_after : PaymentStatus → Option Text → Option Text
status_after paid st = status_when_paid st
status_after failed st = some (codes "past_due")
status_after _ st = st

abbrev paid_at_after : ℕ → PaymentStatus → Invoice → Option ℕ → Option ℕ
paid_at_after now paid invoice old = or_now now invoice.paid_at
paid_at_after now _ invoice old = old

unfoldable pub invoice_fields : ℕ → PaymentStatus → Invoice → Account → Account
invoice_fields now payment invoice a = record a {
  latest_invoice_id = invoice.id;
  last_payment_status = some (payment_name payment);
  subscription_updated_at = some now;
  last_payment_at = paid_at_after now payment invoice a.last_payment_at;
  user = record (a.user) { subscription_status = status_after payment a.user.subscription_status };
}

unfoldable pub handle_invoice : ℕ → PaymentStatus → Invoice → Accounts → Option Accounts
handle_invoice now payment invoice accounts =
    on_resolved (write (invoice_fields now payment invoice))
      (resolve_user_id invoice.metadata_user invoice.customer invoice.subscription accounts)
      accounts

unfoldable pub trial_fields : ℕ → Subscription → Account → Account
trial_fields now sub a = record a { trial_end = sub.trial_end; subscription_updated_at = some now }

unfoldable pub handle_trial_will_end : ℕ → Subscription → Accounts → Option Accounts
handle_trial_will_end now sub accounts =
    on_resolved (trial_fields now sub) (resolve_subscription sub accounts) accounts
