-- ===== src/Approval/History.antt =====
-- Any sequence of operations of the queue.
use paperless_iq.Prelude.{
  ℕ, String, ◌≡◌, refl, ◌≢◌, Bool, false, some, List, [], ◌∷◌, nat_eq, string_eq,
}
use paperless_iq.Approval.Py.{Py}
use paperless_iq.Approval.Rows.{
  Status, pending, SuggestionRow, MetadataSuggestion, get_row, is_pending,
}
use paperless_iq.Approval.Entities.{CreateMissing, Server}
use paperless_iq.Approval.Service.{World, ApproveArgs, RejectArgs, enqueue}
use paperless_iq.Approval.Operations.{reject, bulk_reject, empty_queue, approve, bulk_approve}
use paperless_iq.Approval.Lifecycle.{
  Frozen, Frozen-refl, Frozen-trans, approve-Frozen, bulk_approve-Frozen, reject-Frozen,
  bulk_reject-Frozen, empty_queue-Frozen, enqueue-Frozen,
}

pub data Operation : Type 0 where
  enqueues : MetadataSuggestion → Operation
  approves : ℕ → ApproveArgs → Operation
  rejects : ℕ → RejectArgs → Operation
  bulk_approves : List ℕ → String → CreateMissing → ℕ → Operation
  bulk_rejects : List ℕ → RejectArgs → Operation
  empties : RejectArgs → Operation

module _ {F S : Type 0} (py : Py F) (api : Server S) (configured : Bool) where
  -- One call, whether it returns or raises.
  unfoldable pub step : World S → Operation → World S
  step w (enqueues s) = record w { db = (enqueue s w.db).1 }
  step w (approves sid args) = (approve py api configured sid args w).1
  step w (rejects sid args) = record w { db = (reject sid args w.db).1 }
  step w (bulk_approves sids source create_missing now) =
      (bulk_approve py api configured sids source create_missing now w).1
  step w (bulk_rejects sids args) = record w { db = (bulk_reject sids args w.db).1 }
  step w (empties args) = record w { db = (empty_queue args w.db).1 }

  unfoldable pub run : World S → List Operation → World S
  unfolding step
  run w [] = w
  run w (o ∷ os) = run (step w o) os

  step-Frozen : (w : World S) (o : Operation) → Frozen w.db (step w o).db
  unfolding step
  step-Frozen w (enqueues s) = enqueue-Frozen s w.db
  step-Frozen w (approves sid args) = approve-Frozen py api configured sid args w
  step-Frozen w (rejects sid args) = reject-Frozen sid args w.db
  step-Frozen w (bulk_approves sids source create_missing now) =
      bulk_approve-Frozen py api configured sids source create_missing now w
  step-Frozen w (bulk_rejects sids args) = bulk_reject-Frozen sids args w.db
  step-Frozen w (empties args) = empty_queue-Frozen args w.db

  run-Frozen : (w : World S) (os : List Operation) → Frozen w.db (run w os).db
  unfolding run
  run-Frozen w [] = Frozen-refl w.db
  run-Frozen w (o ∷ os) = Frozen-trans (step-Frozen w o) (run-Frozen (step w o) os)

  -- Whatever operations follow, each returning or raising, a suggestion that is approved or rejected
  -- stays in the table with every column as it was.
  pub run-decided :
      (w : World S) (os : List Operation) (j : ℕ) (r : SuggestionRow)
      → get_row w.db.suggestions j ≡ some r
      → r.status ≢ pending
      → get_row (run w os).db.suggestions j ≡ some r
  run-decided w os j r h d = (run-Frozen w os).at_id j r h (decided r.status d)
    where
      decided : (s : Status) → s ≢ pending → is_pending s ≡ false
      decided pending d = absurd (d refl)
      decided Status.approved d = refl
      decided Status.rejected d = refl
