-- ===== src/Billing/Tests.antt =====
-- A paying customer, one on a plan set by hand, and the events of a subscription.
use ai_wa_chat_agent_be.Prelude.{
  if◌then◌else◌, ℕ, ◌≡◌, refl, false, Option, none, some, [], ◌∷◌, arith,
}
use ai_wa_chat_agent_be.Prelude.Text.{Text, codes, text_eq, normal, or_text, strip}
use ai_wa_chat_agent_be.Plans.{free, professional, plan_of_key, normalize_plan_key}
use ai_wa_chat_agent_be.Entitlements.{effective_plan_key}
use ai_wa_chat_agent_be.Billing.Accounts.{
  Account, Subscription, Prices, find_account, resolve_user_id, check_customer, is_manual_plan,
  plan_from_price, subscription_plan, subscription_fields,
}
use ai_wa_chat_agent_be.Billing.Handlers.{
  Settings, write, on_resolved, apply_plan, apply_subscription,
}
use ai_wa_chat_agent_be.Billing.Webhook.{
  StripeEvent, EventBody, Store, Delivery, find_claim, handle, claimed, claim_verdict, verdict_of,
  finish_webhook, run_claimed, stripe_webhook, interrupted_webhook, deliver_all,
}
use ai_wa_chat_agent_be.Billing.Manual.{AreUntouched, deliver_all-AreUntouched}
use ai_wa_chat_agent_be.Billing.Entitled.{in_good_standing, subscription_fields-effective_plan_key}
use ai_wa_chat_agent_be.Billing.Redelivery.{
  stripe_webhook-redelivered, stripe_webhook-refused, interrupted_is_acknowledged,
}

abbrev account : ℕ → Text → Text → Account
account id plan status = record {
  id = id;
  user = record {
    plan = some plan;
    subscription_status = some status;
    twilio_whatsapp_to = none;
    meta_connection_status = none;
    meta_phone_number_id = none;
  };
  stripe_customer_id = codes "cus_1";
  stripe_subscription_id = [];
  stripe_price_id = [];
  stripe_product_id = [];
  cancel_at_period_end = false;
  cancelled_at = none;
  current_period_start = none;
  current_period_end = none;
  trial_start = none;
  trial_end = none;
  subscription_created_at = none;
  subscription_updated_at = none;
  latest_invoice_id = [];
  last_payment_status = none;
  last_payment_at = none;
}

abbrev store : Store
store = record {
  accounts =
      account 1 (codes "free") (codes "none")
      ∷ account 2 (codes "starter") (codes "manual_override")
      ∷ [];
  claims = [];
}

abbrev prices : Prices
prices = record {
  price_starter = codes "price_s";
  price_professional = codes "price_p";
  price_business = codes "price_b";
}

abbrev cfg : Settings
cfg = record { prices = prices; trial_days = 7; webhook_claim_ttl = 300 }

abbrev subscription : Option ℕ → Text → Subscription
subscription user customer = record {
  id = codes "sub_1";
  metadata_user = user;
  metadata_plan = none;
  customer = customer;
  price_id = codes "price_p";
  product_id = codes "prod";
  status = some (codes "active");
  cancel_at_period_end = false;
  canceled_at = none;
  current_period_start = none;
  current_period_end = none;
  trial_start = none;
  trial_end = none;
  created = none;
}

abbrev changed : StripeEvent
changed = record {
  id = codes "evt_1";
  body = EventBody.subscription_changed (subscription (some 1) (codes "cus_1"));
}

-- the customer is another's
abbrev conflicting : StripeEvent
conflicting = record {
  id = codes "evt_2";
  body = EventBody.subscription_changed (subscription (some 1) (codes "cus_9"));
}

-- for the account whose plan was set by hand
abbrev for_manual : StripeEvent
for_manual = record {
  id = codes "evt_3";
  body = EventBody.subscription_changed (subscription (some 2) (codes "cus_1"));
}

changed_is_accepted : (stripe_webhook cfg 5 changed store).0 ≡ 200
unfolding stripe_webhook run_claimed claim_verdict find_claim finish_webhook handle
    apply_subscription apply_plan subscription_plan plan_from_price resolve_user_id check_customer
    find_account on_resolved text_eq strip
changed_is_accepted = refl

conflict_is_refused : (stripe_webhook cfg 5 conflicting store).0 ≡ 500
unfolding stripe_webhook run_claimed claim_verdict find_claim finish_webhook handle
    apply_subscription apply_plan subscription_plan plan_from_price resolve_user_id check_customer
    find_account on_resolved text_eq strip
conflict_is_refused = refl

new_is_claimed : verdict_of cfg 5 changed store ≡ claimed
unfolding claim_verdict find_claim
new_is_claimed = refl

conflicting_is_claimed : verdict_of cfg 5 conflicting store ≡ claimed
unfolding claim_verdict find_claim
conflicting_is_claimed = refl

free_account_is_not_manual : is_manual_plan (account 1 (codes "free") (codes "none")).user ≡ false
unfolding is_manual_plan normalize_plan_key plan_of_key text_eq normal
free_account_is_not_manual = refl

price_is_known :
    subscription_plan prices (subscription (some 1) (codes "cus_1")) ≡ some professional
unfolding subscription_plan plan_from_price text_eq strip
price_is_known = refl

deliver_all-AreUntouched_example :
    AreUntouched store.accounts
      (deliver_all cfg
        (Delivery.delivered 5 for_manual
          ∷ Delivery.interrupted 6 changed
          ∷ Delivery.delivered 400 changed
          ∷ [])
        store).accounts
deliver_all-AreUntouched_example =
    deliver_all-AreUntouched cfg
      (Delivery.delivered 5 for_manual
        ∷ Delivery.interrupted 6 changed
        ∷ Delivery.delivered 400 changed
        ∷ [])
      store

stripe_webhook-redelivered_example :
    let t =
      deliver_all cfg
        (Delivery.delivered 6 for_manual ∷ Delivery.interrupted 7 changed ∷ [])
        (stripe_webhook cfg 5 changed store).1 in
    stripe_webhook cfg 900 changed t ≡ (200, t)
stripe_webhook-redelivered_example =
    stripe_webhook-redelivered cfg 5 changed store new_is_claimed changed_is_accepted
      (Delivery.delivered 6 for_manual ∷ Delivery.interrupted 7 changed ∷ []) 900

stripe_webhook-refused_example :
    ((stripe_webhook cfg 5 conflicting store).1.accounts ≡ store.accounts)
    × (verdict_of cfg 6 conflicting (stripe_webhook cfg 5 conflicting store).1 ≡ claimed)
stripe_webhook-refused_example =
    stripe_webhook-refused cfg 5 conflicting store conflicting_is_claimed conflict_is_refused 6

interrupted_is_acknowledged_example :
    let t = interrupted_webhook cfg 5 changed store in
    (stripe_webhook cfg 60 changed t ≡ (200, t)) × (t.accounts ≡ store.accounts)
interrupted_is_acknowledged_example =
    interrupted_is_acknowledged cfg 5 changed store new_is_claimed 60 (omega arith)

subscription_fields-effective_plan_key_example :
    effective_plan_key
      (write
        (subscription_fields 5 (subscription (some 1) (codes "cus_1")) professional)
        (account 1 (codes "free") (codes "none"))).user
    ≡ (if in_good_standing
          (normal (or_text (subscription (some 1) (codes "cus_1")).status (codes "active")))
        then professional
        else free)
subscription_fields-effective_plan_key_example =
    subscription_fields-effective_plan_key 5 (subscription (some 1) (codes "cus_1"))
      (account 1 (codes "free") (codes "none")) free_account_is_not_manual prices professional
      price_is_known
