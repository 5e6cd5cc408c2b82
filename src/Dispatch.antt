-- ===== src/Dispatch.antt =====
-- app/services/status_callback.py: which stored documents a status callback moves. A callback names
-- the id of a message; the message, the recipient of a blast and the recipient of a campaign that went
-- out with it all hold that id. Twilio's ids and Meta's are looked up in different fields, and either
-- is the `key` here. The event that is published and the warning of repeated failures are not modelled.
pub mod Pointwise
mod Tests
use ai_wa_chat_agent_be.Prelude.{
  ℕ, zero, suc, ◌+◌, Bool, true, false, not, ◌&&◌, ◌||◌, Option, none, some, List, [], ◌∷◌, any,
  is_some, map, if◌then◌else◌, ◌==◌,
}
use ai_wa_chat_agent_be.Prelude.Text.{Text, text_eq, is_empty, strip, is_one_of}
use ai_wa_chat_agent_be.Delivery.{
  Status, DeliveryDoc, Callback, build_status_update, apply_callback, normalize_status,
}
use ai_wa_chat_agent_be.Blast.{Blast, update_blast_recipient}
use ai_wa_chat_agent_be.Engine.Store.{Store}
use ai_wa_chat_agent_be.Engine.Routes.{update_campaign_recipient}

pub record Keyed : Type 0 where
  pub key : Text
  pub doc : DeliveryDoc

pub record KeyedRow : Type 0 where
  pub key : Text
  pub blast_id : ℕ
  pub doc : DeliveryDoc

pub record Documents : Type 0 where
  pub messages : List Keyed
  pub blast_rows : List KeyedRow
  pub blasts : ℕ → Option Blast
  pub campaign_keys : List (Text × ℕ)  -- the recipients of the campaign, by their message
  pub engine : Store

pub data Kind : Type 0 where
  message blast_recipient campaign_recipient no_kind : Kind

abbrev pub has_message_key : Text → Keyed → Bool
has_message_key k m = text_eq k m.key

abbrev pub has_row_key : Text → KeyedRow → Bool
has_row_key k r = text_eq k r.key

abbrev pub has_pair_key : Text → Text × ℕ → Bool
has_pair_key k p = text_eq k p.0

-- The messages that `find(…).to_list(length=n)` finds are moved, each in its turn.
unfoldable pub move_messages : ℕ → Text → Callback → List Keyed → List Keyed
move_messages n k cb [] = []
move_messages zero k cb (m ∷ ms) = m ∷ ms
move_messages (suc n) k cb (m ∷ ms) =
    let moved = record m { doc = apply_callback m.doc cb } ∷ move_messages n k cb ms in
    let kept = m ∷ move_messages (suc n) k cb ms in if has_message_key k m then moved else kept

abbrev pub set_blast : ℕ → Option Blast → (ℕ → Option Blast) → ℕ → Option Blast
set_blast i b f j = if j == i then b else f j

-- The rows of a blast, with the blasts that count them; the last part is `updated_any`.
unfoldable pub move_rows :
    ℕ
    → Text
    → Callback
    → List KeyedRow
    → (ℕ → Option Blast)
    → List KeyedRow × (ℕ → Option Blast) × Bool
move_rows n k cb [] blasts = ([], blasts, false)
move_rows zero k cb (r ∷ rs) blasts = (r ∷ rs, blasts, false)
move_rows (suc n) k cb (r ∷ rs) blasts =
    let (b, d, updated) = update_blast_recipient (blasts r.blast_id) r.doc cb in
    let (moved, after, any_moved) = move_rows n k cb rs (set_blast r.blast_id b blasts) in
    let (kept, same, any_kept) = move_rows (suc n) k cb rs blasts in
    if has_row_key k r
    then (record r { doc = d } ∷ moved, after, updated || any_moved)
    else (r ∷ kept, same, any_kept)

-- The recipients of the campaign.
unfoldable pub move_recipients : ℕ → Text → Callback → List (Text × ℕ) → Store → Store
move_recipients n k cb [] s = s
move_recipients zero k cb (p ∷ ps) s = s
move_recipients (suc n) k cb (p ∷ ps) s =
    let moved =
      move_recipients n k cb ps
        (update_campaign_recipient cb.now p.1 (normalize_status (some cb.raw)) s) in
    let kept = move_recipients (suc n) k cb ps s in if has_pair_key k p then moved else kept

abbrev pub move_blast_rows : Text → Callback → Documents → Documents
move_blast_rows k cb s =
    let (rows, after, updated) = move_rows 20 k cb s.blast_rows s.blasts in
    record s { blast_rows = rows; blasts = after }

abbrev pub move_campaign : Text → Callback → Documents → Documents
move_campaign k cb s = record s { engine = move_recipients 20 k cb s.campaign_keys s.engine }

-- A message goes first, and then its copies; without one a blast's recipient, and else a campaign's.
unfoldable pub apply_twilio_status_callback : Text → Callback → Documents → Documents × Kind
apply_twilio_status_callback k cb s =
    if any (has_message_key k) s.messages
    then (
      move_campaign k cb
          (move_blast_rows k cb (record s { messages = move_messages 20 k cb s.messages })),
      message,
    )
    else if any (has_row_key k) s.blast_rows
    then (move_blast_rows k cb s, blast_recipient)
    else if any (has_pair_key k) s.campaign_keys
    then (move_campaign k cb s, campaign_recipient)
    else (s, no_kind)

-- Where a webhook of Meta goes: the number it is for, and the numbers of the tenant that holds the
-- documents.
pub record Numbers : Type 0 where
  pub phone_number_id : Text
  pub tenant_ids : List Text

pub data MetaReason : Type 0 where
  empty_id unknown_id pnid_mismatch unknown_status handled : MetaReason

abbrev pub is_mismatch : Numbers → Bool
is_mismatch n =
    not (is_empty n.phone_number_id)
    && any (λ t. not (is_empty t)) n.tenant_ids
    && not (is_one_of n.phone_number_id n.tenant_ids)

-- Of Meta's messages one is looked up. The answers `applied` and `noop` are one here, `handled`.
unfoldable pub apply_meta_status_update :
    Text → Callback → Numbers → Documents → Documents × MetaReason
apply_meta_status_update raw_key cb n s =
    let k = strip raw_key in
    let moved =
      move_blast_rows k cb
        (move_campaign k cb (record s { messages = move_messages 1 k cb s.messages })) in
    if is_empty k
    then (s, empty_id)
    else if not (
        any (has_message_key k) s.messages
        || any (has_pair_key k) s.campaign_keys
        || any (has_row_key k) s.blast_rows)
    then (s, unknown_id)
    else if is_mismatch n
    then (s, pnid_mismatch)
    else if not (is_some (normalize_status (some cb.raw)))
    then (s, unknown_status)
    else (moved, handled)
