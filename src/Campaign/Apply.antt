-- ===== src/Campaign/Apply.antt =====
-- The rule by which a recipient's status moves, against a plain reference.
use ai_wa_chat_agent_be.Prelude.{
  ◌≤◌, ◌≡◌, ◌⊎◌, inl, Bool, true, not, ◌&&◌, Option, none, some, [], ◌∷◌, arith, leb, if◌then◌else◌,
}
use ai_wa_chat_agent_be.Campaign.{
  RecipientStatus, is_one, rank_or_0, recipient_eq, recipient_rank, recipient_should_apply,
}

-- A reply counts for whoever was not skipped or cancelled; any other status is applied where it is
-- new and its rank is not below the current one.
abbrev pub may_move : Option RecipientStatus → RecipientStatus → Bool
may_move cur incoming =
    not (is_one cur (incoming ∷ []))
    && (if recipient_eq incoming RecipientStatus.replied
        then not (is_one cur (RecipientStatus.cancelled ∷ RecipientStatus.skipped ∷ []))
        else leb (rank_or_0 cur) (recipient_rank incoming))

-- The guards of `recipient_should_apply` come to that rule: the special cases for each current
-- status neither allow nor refuse anything beyond it.
pub recipient_should_apply-eq-may_move :
    (cur : Option RecipientStatus) (incoming : RecipientStatus)
    → recipient_should_apply cur incoming ≡ may_move cur incoming
unfolding recipient_should_apply
recipient_should_apply-eq-may_move none incoming = ground arith
recipient_should_apply-eq-may_move (some RecipientStatus.pending) incoming = ground arith
recipient_should_apply-eq-may_move (some _) incoming = ground arith

-- An applied status has no lower rank than the one it replaces, but for a reply after a failure.
pub recipient_should_apply-rank :
    (cur : Option RecipientStatus) (incoming : RecipientStatus)
    → recipient_should_apply cur incoming ≡ true
    → (rank_or_0 cur ≤ recipient_rank incoming)
      ⊎ ((incoming ≡ RecipientStatus.replied) × (cur ≡ some RecipientStatus.failed))
unfolding recipient_eq recipient_rank
recipient_should_apply-rank none incoming h = inl (omega arith)
recipient_should_apply-rank (some RecipientStatus.failed) incoming h =
    ground (arith, recipient_should_apply-eq-may_move (some RecipientStatus.failed) incoming)
recipient_should_apply-rank (some c) incoming h =
    ground (arith, recipient_should_apply-eq-may_move (some c) incoming)
