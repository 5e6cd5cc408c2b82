-- ===== src/Inbound/Redelivery.antt =====
-- A delivery that the provider repeats.
use ai_wa_chat_agent_be.Prelude.{
  ℕ, ◌+◌, ◌<◌, ◌≡◌, refl, Bool, true, false, not, ◌&&◌, none, List, [], ◌∷◌, arith, inl, inr, any,
  Bool-cases, Option-cases,
}
use ai_wa_chat_agent_be.Prelude.Text.{Text, text_eq, text_eq_refl, is_empty, strip}
use ai_wa_chat_agent_be.Consent.{is_keyword}
use ai_wa_chat_agent_be.PhoneNorm.{normalize_e164}
use ai_wa_chat_agent_be.Inbound.Store.{
  WaProvider, twilio, meta, unknown_provider, provider_eq, InboundMessage, Handling,
  InboundSettings, User, InboundStore, duplicate, has_key, claim_ttl, has_claim, set_tenant,
}
use ai_wa_chat_agent_be.Inbound.Steps.{
  is_meta_provider, claim, claim_webhook_event, resolve_tenant, is_self_sender,
}
use ai_wa_chat_agent_be.Inbound.Pipeline.{plain, receive, process_inbound_message, process_all}

-- The delivery has an id and comes from a provider that has one.
abbrev pub is_known : WaProvider → Bool
is_known twilio = true
is_known meta = true
is_known unknown_provider = false

provider_eq_refl : (p : WaProvider) → provider_eq p p ≡ true
unfolding provider_eq
provider_eq_refl twilio = refl
provider_eq_refl _ = refl

abbrev Claimed : ℕ → InboundMessage → InboundStore → Type 0
Claimed now m s = has_claim now m.provider m.provider_message_id s.webhook_events ≡ true

receive-events :
    (cfg : InboundSettings) (h : Handling) (m : InboundMessage) (p : Text) (user : User)
    (s : InboundStore)
    → (receive cfg h m p user s).0.webhook_events ≡ s.webhook_events
unfolding receive set_tenant
receive-events cfg h m p user s =
    elim (Bool-cases (
      any (text_eq p) (s.tenant user.id).blacklist
      && not (is_keyword cfg.optin_keywords (strip m.body) && cfg.allow_keyword_reoptin))) [
        | inl b ↦ rw (b, receive) refl
        | inr nb ↦
            elim (Bool-cases (
              not (is_empty m.provider_message_id)
              && has_key m.provider m.provider_message_id s.message_keys)) [
                | inl k ↦ rw (nb, k, receive) refl
                | inr nk ↦ rw (nb, nk, receive) (ground arith)
              ]
      ]

-- A new claim counts until it expires.
claim-has_claim :
    (at now : ℕ) (p : WaProvider) (mid : Text) (s : InboundStore)
    → has_claim at p mid s.webhook_events ≡ false
    → now < at + claim_ttl
    → has_claim now p mid (claim at p mid s).0.webhook_events ≡ true
unfolding claim
claim-has_claim at now p mid s new early =
    ground (arith, new, early, provider_eq_refl p, text_eq_refl mid)

claim-keeps :
    (at now : ℕ) (p q : WaProvider) (mid i : Text) (s : InboundStore)
    → has_claim now q i s.webhook_events ≡ true
    → has_claim now q i (claim at p mid s).0.webhook_events ≡ true
unfolding claim
claim-keeps at now p q mid i s h = ground (arith, h)

-- of a provider that keeps claims: the claim is new, or it was there
claim_webhook_event-claim :
    (at : ℕ) (m : InboundMessage) (s : InboundStore)
    → is_known m.provider ≡ true
    → is_empty m.provider_message_id ≡ false
    → claim_webhook_event at m s ≡ claim at m.provider m.provider_message_id s
unfolding claim_webhook_event
claim_webhook_event-claim at m s known filled = go m.provider known
  where
    go :
        (p : WaProvider)
        → is_known p ≡ true
        → claim_webhook_event at (record m { provider = p }) s ≡ claim at p m.provider_message_id s
    go twilio k = rw filled refl
    go meta k = rw filled refl
    go unknown_provider k = cc

claim_webhook_event-keeps :
    (at now : ℕ) (m : InboundMessage) (q : WaProvider) (i : Text) (s : InboundStore)
    → has_claim now q i s.webhook_events ≡ true
    → has_claim now q i (claim_webhook_event at m s).0.webhook_events ≡ true
unfolding claim_webhook_event
claim_webhook_event-keeps at now m q i s h =
    elim (Bool-cases (is_known m.provider && not (is_empty m.provider_message_id))) [
      | inl y ↦
          rw (claim_webhook_event-claim at m s (ground (arith, y)) (ground (arith, y)))
            (claim-keeps at now m.provider q m.provider_message_id i s h)
      | inr n ↦ go m.provider n
    ]
  where
    go :
        (p : WaProvider)
        → (is_known p && not (is_empty m.provider_message_id)) ≡ false
        → has_claim now q i (claim_webhook_event at (record m { provider = p }) s).0.webhook_events
          ≡ true
    go twilio n = ground (arith, n, h)
    go meta n = ground (arith, n, h)
    go unknown_provider n = h

module _ (is_digit : ℕ → Bool) where
  -- Whatever becomes of the message, its claim is the only write to the claims.
  process-events :
      (cfg : InboundSettings) (h : Handling) (m : InboundMessage) (s : InboundStore)
      → (is_meta_provider m.provider && is_empty m.provider_message_id) ≡ false
      → (process_inbound_message is_digit cfg h m s).0.webhook_events
        ≡ (claim_webhook_event h.now m s).0.webhook_events
  unfolding process_inbound_message
  process-events cfg h m s filled =
      let claimed = (claim_webhook_event h.now m s).0 in
      elim (Bool-cases (claim_webhook_event h.now m s).1) [
        | inr old ↦ rw (filled, old, process_inbound_message) refl
        | inl fresh ↦
            elim (Option-cases (normalize_e164 is_digit cfg.default_region m.customer_phone)) [
              | inl e ↦ rw (filled, fresh, e, process_inbound_message) refl
              | inr (p, e) ↦
                  elim (Option-cases (resolve_tenant is_digit cfg.default_region m claimed.users)) [
                    | inl u ↦ rw (filled, fresh, e, u, process_inbound_message) refl
                    | inr (user, u) ↦ elim (Bool-cases (is_self_sender is_digit cfg m p user)) [
                      | inl y ↦ rw (filled, fresh, e, u, y, process_inbound_message) refl
                      | inr n ↦
                          rw (filled, fresh, e, u, n, process_inbound_message)
                            (receive-events cfg h m p user claimed)
                    ]
                  ]
            ]
      ]

  process-keeps :
      (cfg : InboundSettings) (now : ℕ) (h : Handling) (m : InboundMessage) (q : WaProvider)
      (i : Text) (s : InboundStore)
      → has_claim now q i s.webhook_events ≡ true
      → has_claim now q i (process_inbound_message is_digit cfg h m s).0.webhook_events ≡ true
  unfolding process_inbound_message
  process-keeps cfg now h m q i s there =
      elim (Bool-cases (is_meta_provider m.provider && is_empty m.provider_message_id)) [
        | inl y ↦ rw (y, process_inbound_message) there
        | inr filled ↦
            rw (process-events cfg h m s filled) (claim_webhook_event-keeps h.now now m q i s there)
      ]

  process_all-keeps :
      (cfg : InboundSettings) (now : ℕ) (ms : List (Handling × InboundMessage)) (q : WaProvider)
      (i : Text) (s : InboundStore)
      → has_claim now q i s.webhook_events ≡ true
      → has_claim now q i (process_all is_digit cfg ms s).webhook_events ≡ true
  unfolding process_all
  process_all-keeps cfg now [] q i s there = there
  process_all-keeps cfg now ((h, m) ∷ ms) q i s there =
      process_all-keeps cfg now ms q i (process_inbound_message is_digit cfg h m s).0
        (process-keeps cfg now h m q i s there)

  process-Claimed :
      (cfg : InboundSettings) (h : Handling) (m : InboundMessage) (s : InboundStore)
      → is_known m.provider ≡ true
      → is_empty m.provider_message_id ≡ false
      → Claimed h.now m s
      → process_inbound_message is_digit cfg h m s ≡ (s, plain duplicate none [])
  unfolding process_inbound_message claim
  process-Claimed cfg h m s known filled there =
      rw (claim_webhook_event-claim h.now m s known filled, filled, there, process_inbound_message)
        (ground arith)

  -- Once a message with an id of Twilio or Meta, of which there was no claim, was processed, whatever
  -- the outcome and whatever came after it, every further delivery with the same provider and id within
  -- the thirty days that its claim counts is answered as a duplicate and changes nothing.
  pub process-redelivered :
      (cfg : InboundSettings) (h k : Handling) (m n : InboundMessage)
      (ms : List (Handling × InboundMessage)) (s : InboundStore)
      → is_known m.provider ≡ true
      → is_empty m.provider_message_id ≡ false
      → has_claim h.now m.provider m.provider_message_id s.webhook_events ≡ false
      → n.provider ≡ m.provider
      → n.provider_message_id ≡ m.provider_message_id
      → k.now < h.now + claim_ttl
      → let t = process_all is_digit cfg ms (process_inbound_message is_digit cfg h m s).0 in
        process_inbound_message is_digit cfg k n t ≡ (t, plain duplicate none [])
  process-redelivered cfg h k m n ms s known filled new same id early =
      let first = (process_inbound_message is_digit cfg h m s).0 in
      let claimed : Claimed k.now m first =
        rw
          (
            process-events cfg h m s (ground (arith, filled)),
            claim_webhook_event-claim h.now m s known filled,
          )
          (claim-has_claim h.now k.now m.provider m.provider_message_id s new early) in
      let t = process_all is_digit cfg ms first in
      let later = process_all-keeps cfg k.now ms m.provider m.provider_message_id first claimed in
      process-Claimed cfg k n t (rw same known) (rw id filled) (rw (same, id) later)
