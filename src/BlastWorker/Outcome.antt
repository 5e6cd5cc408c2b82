-- ===== src/BlastWorker/Outcome.antt =====
-- The status that `_finalize_blast` gives a blast, and whom its counts miss.
use ai_wa_chat_agent_be.Prelude.{
  ℕ, ◌+◌, ◌<◌, ◌≡◌, refl, Bool, true, false, List, [], ◌∷◌, arith, if◌then◌else◌, length,
}
use ai_wa_chat_agent_be.Delivery.{Status, status_eq}
use ai_wa_chat_agent_be.Blast.{is_sent, is_handed_over}
use ai_wa_chat_agent_be.BlastWorker.Store.{
  BlastStatus, BlastRecipientStatus, BlastRecipient, BlastStore, is_finished, is_row_open,
  is_counted_sent, is_failed_row, is_cancelled_row, count_rows, recount_blast, final_blast_status,
  finalize_blast, set_blast_status,
}

-- The statuses with which a provider reports a message that did not arrive, `failed` aside.
abbrev pub is_lost : BlastRecipientStatus → Bool
is_lost (BlastRecipientStatus.by_provider Status.undelivered) = true
is_lost (BlastRecipientStatus.by_provider Status.canceled) = true
is_lost _ = false

abbrev one_if : Bool → ℕ
one_if b = if b then 1 else 0

row_counts :
    (st : BlastRecipientStatus)
    → one_if (is_counted_sent st)
        + one_if (is_failed_row st)
        + one_if (is_cancelled_row st)
        + one_if (is_row_open st)
        + one_if (is_lost st)
      ≡ 1
unfolding is_row_open is_counted_sent is_failed_row is_cancelled_row is_sent is_handed_over
    status_eq
row_counts BlastRecipientStatus.pending = refl
row_counts BlastRecipientStatus.processing = refl
row_counts BlastRecipientStatus.retrying = refl
row_counts BlastRecipientStatus.cancelled = refl
row_counts (BlastRecipientStatus.by_provider s) = go s
  where
    go :
        (s : Status)
        → let st = BlastRecipientStatus.by_provider s in
          one_if (is_counted_sent st)
            + one_if (is_failed_row st)
            + one_if (is_cancelled_row st)
            + one_if (is_row_open st)
            + one_if (is_lost st)
          ≡ 1
    go Status.queued = refl
    go _ = refl

-- The three counters of the recount, the recipients still open and the lost ones make up all
-- recipients: a recipient whose message was reported undelivered or canceled is in no counter.
pub recount_blast-partition :
    (s : BlastStore)
    → let b = (recount_blast s).blast in
      b.sent_count
        + b.failed_count
        + b.cancelled_count
        + count_rows is_row_open s.rows
        + count_rows is_lost s.rows
      ≡ length s.rows
unfolding recount_blast
recount_blast-partition s = go s.rows
  where
    go :
        (rs : List BlastRecipient)
        → count_rows is_counted_sent rs
            + count_rows is_failed_row rs
            + count_rows is_cancelled_row rs
            + count_rows is_row_open rs
            + count_rows is_lost rs
          ≡ length rs
    go [] = omega arith
    go (r ∷ rs) = omega (arith, row_counts r.status, go rs)

-- A blast with recipients, each of which was reported undelivered or canceled, is finalized as
-- completed, with nobody counted as sent and nobody counted as failed.
pub finalize_blast-lost :
    (s : BlastStore)
    → is_finished s.blast.status ≡ false
    → 0 < s.blast.total_recipients
    → count_rows is_lost s.rows ≡ length s.rows
    → let b = (finalize_blast s).blast in
      (b.status ≡ BlastStatus.completed) × (b.sent_count ≡ 0) × (b.failed_count ≡ 0)
unfolding finalize_blast recount_blast set_blast_status final_blast_status
finalize_blast-lost s on some_rows lost =
    let all = recount_blast-partition s in
    let none_sent : (recount_blast s).blast.sent_count ≡ 0 = omega (arith, all) in
    let none_failed : (recount_blast s).blast.failed_count ≡ 0 = omega (arith, all) in
    rw (on, finalize_blast) (ground (arith, none_sent, none_failed))
