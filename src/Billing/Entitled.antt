-- ===== src/Billing/Entitled.antt =====
-- Which plan applies after the events of a subscription.
use ai_wa_chat_agent_be.Prelude.{
  ℕ, ◌≡◌, refl, ap, ◌∙◌, inl, inr, Bool, true, false, ◌||◌, some, [], ◌∷◌, if◌then◌else◌, arith,
  Bool-cases, Option-cases,
}
use ai_wa_chat_agent_be.Prelude.Text.{
  Text, codes, text_eq, eq_of_text_eq, is_one_of, normal, strip, lower, normal_idem, is_empty,
  or_text,
}
use ai_wa_chat_agent_be.Plans.{
  Plan, free, starter, professional, business, enterprise, plan_name, normalize_plan_key,
  stripe_checkout,
}
use ai_wa_chat_agent_be.Plans.Keys.{normalize_plan_key-name}
use ai_wa_chat_agent_be.Entitlements.{
  entitled_statuses, is_entitled, plan_applied, effective_plan_key,
}
use ai_wa_chat_agent_be.Billing.Accounts.{
  Account, Subscription, is_manual_plan, keep_manual_plan, deleted_fields, subscription_fields,
  stripe_status, subscription_plan, is_enterprise, Prices, plan_from_price,
}
use ai_wa_chat_agent_be.Billing.Handlers.{write}

plan_of_name : (p : Plan) → normalize_plan_key (some (plan_name p)) ≡ p
unfolding plan_name normalize_plan_key normal
plan_of_name free = normalize_plan_key-name free (codes "free") refl
plan_of_name starter = normalize_plan_key-name starter (codes "starter") refl
plan_of_name professional = normalize_plan_key-name professional (codes "professional") refl
plan_of_name business = normalize_plan_key-name business (codes "business") refl
plan_of_name enterprise = normalize_plan_key-name enterprise (codes "enterprise") refl

free_of_name : normalize_plan_key (some (codes "free")) ≡ free
unfolding plan_name
free_of_name = plan_of_name free

-- A canceled subscription gives the Free plan.
canceled_is_free :
    (p : Plan) (st : Text)
    → is_enterprise p ≡ false
    → text_eq st (codes "canceled") ≡ true
    → free ≡ plan_applied p (is_entitled (some st))
unfolding plan_applied is_entitled is_one_of text_eq normal
canceled_is_free p st h y = rw (eq_of_text_eq st (codes "canceled") y) (free_of_paid p h)
  where
    free_of_paid : (q : Plan) → is_enterprise q ≡ false → free ≡ plan_applied q false
    free_of_paid free h = refl
    free_of_paid starter h = refl
    free_of_paid professional h = refl
    free_of_paid business h = refl
    free_of_paid enterprise h = cc

plan_from_price-paid :
    (prices : Prices) (price_id : Text) (p : Plan)
    → plan_from_price prices price_id ≡ some p
    → is_enterprise p ≡ false
unfolding plan_from_price
plan_from_price-paid prices price_id p h = ground arith

checkout_not_enterprise : (p : Plan) → stripe_checkout p ≡ true → is_enterprise p ≡ false
unfolding stripe_checkout
checkout_not_enterprise enterprise h = cc
checkout_not_enterprise _ h = refl

-- No subscription is for the Enterprise plan.
subscription_plan-paid :
    (prices : Prices) (sub : Subscription) (p : Plan)
    → subscription_plan prices sub ≡ some p
    → is_enterprise p ≡ false
unfolding subscription_plan
subscription_plan-paid prices sub p h = elim (Option-cases (plan_from_price prices sub.price_id)) [
  | inr (q, known) ↦ ground (arith, known, plan_from_price-paid prices sub.price_id q known)
  | inl unknown ↦
      ground (arith, unknown, checkout_not_enterprise (normalize_plan_key sub.metadata_plan))
]

abbrev pub in_good_standing : Text → Bool
in_good_standing st =
    text_eq st (codes "active")
    || text_eq st (codes "past_due")
    || text_eq st (codes "trialing")
    || text_eq st (codes "manual_override")

standing_of_none : is_one_of (normal (codes "none")) entitled_statuses ≡ in_good_standing []
unfolding is_one_of text_eq normal strip lower
standing_of_none = refl

empty_is_nil : (u : Text) → is_empty u ≡ true → u ≡ []
empty_is_nil [] h = refl
empty_is_nil (c ∷ u) h = cc

in_any_order : (u : Text) → is_one_of u entitled_statuses ≡ in_good_standing u
unfolding is_one_of
in_any_order u = ground arith

-- The status is stored in its normal form, which is compared in its normal form again.
is_entitled-standing : (t : Text) → is_entitled (some (normal t)) ≡ in_good_standing (normal t)
unfolding is_entitled
is_entitled-standing t = elim (Bool-cases (is_empty (normal t))) [
  | inl e ↦ rw (empty_is_nil (normal t) e) standing_of_none
  | inr n ↦ rw (n, normal_idem t) (in_any_order (normal t))
]

plan_applied-paid :
    (p : Plan) (entitled : Bool)
    → is_enterprise p ≡ false
    → plan_applied p entitled ≡ (if entitled then p else free)
unfolding plan_applied
plan_applied-paid free true h = refl
plan_applied-paid free false h = refl
plan_applied-paid enterprise e h = cc
plan_applied-paid p e h = refl

module _ (now : ℕ) (sub : Subscription) (a : Account)
    (is_free : is_manual_plan a.user ≡ false) where
  subscription_fields-plan_applied :
      (prices : Prices) (p : Plan)
      → subscription_plan prices sub ≡ some p
      → effective_plan_key (write (subscription_fields now sub p) a).user
        ≡ plan_applied p (is_entitled (some (stripe_status sub)))
  unfolding effective_plan_key keep_manual_plan subscription_fields plan_applied
  subscription_fields-plan_applied prices p h =
      elim (Bool-cases (text_eq (stripe_status sub) (codes "canceled"))) [
        | inl canceled ↦
            rw (is_free, canceled, free_of_name)
              (canceled_is_free p (stripe_status sub) (subscription_plan-paid prices sub p h)
                canceled)
        | inr other ↦ rw (is_free, other, plan_of_name p) refl
      ]

  -- After an event of a subscription that is not deleted, on an account whose plan was not set by hand:
  -- if Stripe's status of the subscription, stripped and in lower case, and active where it is missing,
  -- is trialing, active, past_due or manual_override, then the plan that applies is the subscription's,
  -- by its price or else its metadata; and otherwise it is Free.
  pub subscription_fields-effective_plan_key :
      (prices : Prices) (p : Plan)
      → subscription_plan prices sub ≡ some p
      → effective_plan_key (write (subscription_fields now sub p) a).user
        ≡ (if in_good_standing (normal (or_text sub.status (codes "active"))) then p else free)
  unfolding stripe_status
  subscription_fields-effective_plan_key prices p h =
      subscription_fields-plan_applied prices p h
      ∙ plan_applied-paid p _ (subscription_plan-paid prices sub p h)
      ∙ ap (λ b. if b then p else free) (is_entitled-standing (or_text sub.status (codes "active")))

  -- After the deletion of the subscription of such an account, the Free plan applies.
  pub deleted_fields-effective_plan_key :
      effective_plan_key (write (deleted_fields now sub) a).user ≡ free
  unfolding effective_plan_key keep_manual_plan deleted_fields plan_applied
  deleted_fields-effective_plan_key = rw (is_free, free_of_name) refl
