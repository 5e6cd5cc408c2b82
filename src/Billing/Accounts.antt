-- ===== src/Billing/Accounts.antt =====
-- app/routes/billing.py: the users that the webhook writes, whose they are, and what an event writes to
-- one. An id of Stripe is a text, empty where it is missing.
use ai_wa_chat_agent_be.Prelude.{
  ℕ, Bool, true, false, not, ◌&&◌, ◌||◌, Option, none, some, List, [], ◌∷◌, if◌then◌else◌, ◌==◌,
  is_some,
}
use ai_wa_chat_agent_be.Prelude.Text.{Text, codes, text_eq, is_empty, or_text, normal, strip}
use ai_wa_chat_agent_be.Plans.{
  Plan, free, starter, professional, business, enterprise, plan_name, normalize_plan_key,
  stripe_checkout,
}
use ai_wa_chat_agent_be.Entitlements.{User}

pub record Account : Type 0 where
  pub id : ℕ
  pub user : User  -- with the plan and the status of the subscription
  pub stripe_customer_id : Text
  pub stripe_subscription_id : Text
  pub stripe_price_id : Text
  pub stripe_product_id : Text
  pub cancel_at_period_end : Bool
  pub cancelled_at : Option ℕ
  pub current_period_start : Option ℕ
  pub current_period_end : Option ℕ
  pub trial_start : Option ℕ
  pub trial_end : Option ℕ  -- also trial_ends_at
  pub subscription_created_at : Option ℕ
  pub subscription_updated_at : Option ℕ
  pub latest_invoice_id : Text
  pub last_payment_status : Option Text
  pub last_payment_at : Option ℕ

unfoldable pub find_account : (Account → Bool) → List Account → Option Account
find_account p [] = none
find_account p (a ∷ as') = if p a then some a else find_account p as'

unfoldable pub update_account : ℕ → (Account → Account) → List Account → List Account
update_account uid f [] = []
update_account uid f (a ∷ as') =
    let rest = update_account uid f as' in if a.id == uid then f a ∷ as' else a ∷ rest

pub data Resolved : Type 0 where
  conflict nobody : Resolved
  found : ℕ → Resolved

-- the metadata's user, as it was found
unfoldable pub check_customer : ℕ → Text → Option Account → Resolved
check_customer uid customer none = conflict
check_customer uid customer (some a) =
    let stored = strip a.stripe_customer_id in
    if not (is_empty customer) && (not (is_empty stored) && not (text_eq stored customer))
    then conflict
    else found uid

abbrev found_or : Option Account → Resolved → Resolved
found_or none r = r
found_or (some a) r = found a.id

unfoldable pub resolve_by_ids : Text → Text → List Account → Resolved
resolve_by_ids customer subscription accounts =
    let by_subscription =
      if is_empty subscription
      then nobody
      else found_or (find_account (λ a. text_eq a.stripe_subscription_id subscription) accounts)
          nobody in
    if is_empty customer
    then by_subscription
    else found_or (find_account (λ a. text_eq a.stripe_customer_id customer) accounts)
        by_subscription

-- _resolve_user_id, with the metadata's user if that is an ObjectId
unfoldable pub resolve_user_id : Option ℕ → Text → Text → List Account → Resolved
resolve_user_id none customer subscription accounts = resolve_by_ids customer subscription accounts
resolve_user_id (some uid) customer subscription accounts =
    check_customer uid customer (find_account (λ a. a.id == uid) accounts)

abbrev pub is_enterprise : Plan → Bool
is_enterprise enterprise = true
is_enterprise p = false

unfoldable pub is_manual_plan : User → Bool
is_manual_plan u =
    text_eq (normal (or_text u.subscription_status [])) (codes "manual_override")
    || is_enterprise (normalize_plan_key u.plan)

-- What is written of an account, less plan and status if the plan is set by hand.
unfoldable pub keep_manual_plan : Account → Account → Account
keep_manual_plan old new = if is_manual_plan old.user then record new { user = old.user } else new

abbrev pub set_plan : Text → Text → Account → Account
set_plan plan status a = record a {
  user = record (a.user) { plan = some plan; subscription_status = some status };
}

pub record Subscription : Type 0 where
  pub id : Text
  pub metadata_user : Option ℕ
  pub metadata_plan : Option Text  -- app_plan, or else plan
  pub customer : Text
  pub price_id : Text
  pub product_id : Text
  pub status : Option Text
  pub cancel_at_period_end : Bool
  pub canceled_at : Option ℕ
  pub current_period_start : Option ℕ
  pub current_period_end : Option ℕ
  pub trial_start : Option ℕ
  pub trial_end : Option ℕ
  pub created : Option ℕ

abbrev pub or_now : ℕ → Option ℕ → Option ℕ
or_now now none = some now
or_now now (some t) = some t

-- app/billing/stripe_config.py: the configured prices, empty where there is none
pub record Prices : Type 0 where
  pub price_starter : Text
  pub price_professional : Text
  pub price_business : Text

abbrev is_price : Text → Text → Bool
is_price configured pid = not (is_empty configured) && text_eq configured pid

unfoldable pub plan_from_price : Prices → Text → Option Plan
plan_from_price prices price_id =
    let pid = strip price_id in
    if is_empty price_id
    then none
    else if is_price prices.price_starter pid
    then some starter
    else if is_price prices.price_professional pid
    then some professional
    else if is_price prices.price_business pid
    then some business
    else none

-- the plan of a subscription that is not deleted; `none` is the ValueError
unfoldable pub subscription_plan : Prices → Subscription → Option Plan
subscription_plan prices sub =
    let meta_plan = normalize_plan_key sub.metadata_plan in
    elim (plan_from_price prices sub.price_id) [
      | some p ↦ some p
      | none ↦
          if stripe_checkout meta_plan
          then if is_empty sub.price_id then some meta_plan else none
          else some free
    ]

unfoldable pub stripe_status : Subscription → Text
stripe_status sub = normal (or_text sub.status (codes "active"))

abbrev is_canceled : Subscription → Bool
is_canceled sub = text_eq (stripe_status sub) (codes "canceled")

-- The `$set` of a deleted subscription, and of another with its plan.
unfoldable pub deleted_fields : ℕ → Subscription → Account → Account
deleted_fields now sub a = record (set_plan (codes "free") (codes "canceled") a) {
  cancel_at_period_end = false;
  cancelled_at = or_now now sub.canceled_at;
  subscription_updated_at = some now;
  stripe_subscription_id = sub.id;
}

unfoldable pub subscription_fields : ℕ → Subscription → Plan → Account → Account
subscription_fields now sub plan a =
    let key = if is_canceled sub then codes "free" else plan_name plan in
    record (set_plan key (stripe_status sub) a) {
      stripe_subscription_id = sub.id;
      stripe_price_id = sub.price_id;
      stripe_product_id = sub.product_id;
      stripe_customer_id = if is_empty sub.customer then a.stripe_customer_id else sub.customer;
      cancel_at_period_end = sub.cancel_at_period_end;
      cancelled_at = if is_canceled sub then or_now now sub.canceled_at else a.cancelled_at;
      current_period_start = sub.current_period_start;
      current_period_end = sub.current_period_end;
      trial_start = sub.trial_start;
      trial_end = sub.trial_end;
      subscription_created_at =
          if is_some a.subscription_created_at then a.subscription_created_at else sub.created;
      subscription_updated_at = some now;
    }
