-- ===== src/Inbox/Monitor.antt =====
-- InboxMonitor and Scheduler: the tracking table, the calls of the analysis callback, and the
-- methods poll, mark_analyzed and run_batch (backend/inbox_monitor.py).
use paperless_iq.Prelude.{
  ℕ, zero, suc, ◌+◌, ◌-◌, ◌*◌, ◌/◌, Bool, true, false, not, Option, none, some, List, [], ◌∷◌, ◌++◌,
  if◌then◌else◌, is_some, length, take, drop, keep, nat_eq, string_eq, ◌==◌,
}

-- The columns of a row of document_tracking that these classes use.
pub record Tracking : Type 0 where
  pub document_id : ℕ
  pub first_seen_at : ℕ
  pub last_analyzed_at : Option ℕ

-- An IntegrityError of the primary key, an exception of the callback, a ZeroDivisionError.
pub data Stop : Type 0 where
  duplicate_key submit_failed division_by_zero : Stop

pub data Answer {ℓ} (A : Type ℓ) : Type ℓ where
  returned : A → Answer A
  raised : Stop → Answer A

-- The committed table, what the callback has changed outside, and the callback's calls so far,
-- latest first.
pub record Inbox (S : Type 0) : Type 0 where
  pub tracking : List Tracking
  pub outside : S
  pub submissions : List ℕ

-- The row of a document: `session.get`, or `tracked[did]`.
unfoldable pub find_row : List Tracking → ℕ → Option Tracking
find_row [] did = none
find_row (t ∷ ts) did = if t.document_id == did then some t else find_row ts did

unfoldable pub is_tracked : List Tracking → ℕ → Bool
unfolding find_row
is_tracked ts did = is_some (find_row ts did)

abbrev pub unstamped : Option Tracking → Bool
unstamped none = true
unstamped (some t) = not (is_some t.last_analyzed_at)

-- `did not in tracked or tracked[did].last_analyzed_at is None`
unfoldable pub is_unanalyzed : List Tracking → ℕ → Bool
unfolding find_row
is_unanalyzed ts did = unstamped (find_row ts did)

-- `if row: row.last_analyzed_at = now`
unfoldable pub stamp : ℕ → ℕ → List Tracking → List Tracking
stamp did now [] = []
stamp did now (t ∷ ts) =
    let rest = stamp did now ts in
    if t.document_id == did then record t { last_analyzed_at = some now } ∷ ts else t ∷ rest

module _ {S : Type 0} where
  -- The rest of a method after a step that returned or raised.
  abbrev pub and_then {ℓ κ} :
      {A : Type ℓ} {B : Type κ}
      → Answer A × Inbox S
      → (A → Inbox S → Answer B × Inbox S)
      → Answer B × Inbox S
  and_then (returned a, s) f = f a s
  and_then (raised e, s) f = (raised e, s)

  pub and_then-keeps {ℓ κ μ} :
      {A : Type ℓ} {B : Type κ} (P : Inbox S → Type μ) (r : Answer A × Inbox S)
      (f : A → Inbox S → Answer B × Inbox S)
      → P r.1
      → ((a : A) (s : Inbox S) → P s → P (f a s).1)
      → P (and_then r f).1
  and_then-keeps P (returned a, s) f p h = h a s p
  and_then-keeps P (raised e, s) f p h = p

  -- A new row is added and committed; the primary key is unique.
  unfoldable pub track : ℕ → ℕ → Inbox S → Answer (Unit {0}) × Inbox S
  unfolding is_tracked
  track did now s = if is_tracked s.tracking did then (raised duplicate_key, s) else (
    returned tt,
    record s {
      tracking =
          s.tracking
          ++ record { document_id = did; first_seen_at = now; last_analyzed_at = none } ∷ [];
    },
  )

  unfoldable pub mark_analyzed : ℕ → ℕ → Inbox S → Inbox S
  unfolding stamp
  mark_analyzed did now s = record s { tracking = stamp did now s.tracking }

-- `submit` is the callback: whether it returned, and what is outside after it.
module _ {S : Type 0} (submit : ℕ → S → Bool × S) where
  abbrev pub called : ℕ → Inbox S → Bool × S → Answer (Unit {0}) × Inbox S
  called did s (true, o) =
      (returned tt, record s { outside = o; submissions = did ∷ s.submissions })
  called did s (false, o) =
      (raised submit_failed, record s { outside = o; submissions = did ∷ s.submissions })

  unfoldable pub call_submit : ℕ → Inbox S → Answer (Unit {0}) × Inbox S
  call_submit did s = called did s (submit did s.outside)

  -- The loop of `poll` over the new documents.
  unfoldable pub submit_new : List ℕ → ℕ → Inbox S → Answer (List ℕ) × Inbox S
  unfolding track call_submit
  submit_new [] now s = (returned [], s)
  submit_new (did ∷ dids) now s = and_then (track did now s) λ u s₁.
      and_then (call_submit did s₁)
        λ u s₂. and_then (submit_new dids now s₂) λ submitted s₃. (returned (did ∷ submitted), s₃)

  unfoldable pub poll : List ℕ → ℕ → Inbox S → Answer (List ℕ) × Inbox S
  unfolding submit_new is_tracked
  poll inbox_doc_ids now s =
      submit_new (keep (λ did. not (is_tracked s.tracking did)) inbox_doc_ids) now s

  -- `if doc_id not in tracked`: `tracked` is what the table held when the run began.
  abbrev pub ensure_tracked : Bool → ℕ → ℕ → Inbox S → Answer (Unit {0}) × Inbox S
  ensure_tracked true did now s = (returned tt, s)
  ensure_tracked false did now s = track did now s

  unfoldable pub process : (ℕ → Bool) → List ℕ → ℕ → Inbox S → Answer (Unit {0}) × Inbox S
  unfolding track call_submit mark_analyzed
  process tracked [] now s = (returned tt, s)
  process tracked (did ∷ dids) now s = and_then (ensure_tracked (tracked did) did now s) λ u s₁.
      and_then (call_submit did s₁) λ u s₂. process tracked dids now (mark_analyzed did now s₂)

  -- `unanalyzed[i * batch_size : (i + 1) * batch_size]`
  abbrev pub slice : List ℕ → ℕ → ℕ → List ℕ
  slice unanalyzed batch_size i = take batch_size (drop (i * batch_size) unanalyzed)

  -- The batches from `i` on. They are returned here, as a record of how the documents were cut; the
  -- code returns nothing.
  unfoldable pub process_batches :
      (ℕ → Bool) → List ℕ → ℕ → ℕ → ℕ → ℕ → Inbox S → Answer (List (List ℕ)) × Inbox S
  unfolding process
  process_batches tracked unanalyzed batch_size now i zero s = (returned [], s)
  process_batches tracked unanalyzed batch_size now i (suc k) s =
      and_then (process tracked (slice unanalyzed batch_size i) now s) λ u s₁.
        and_then (process_batches tracked unanalyzed batch_size now (suc i) k s₁)
          λ batches s₂. (returned (slice unanalyzed batch_size i ∷ batches), s₂)

  -- `math.ceil(len(unanalyzed) / batch_size)`
  abbrev pub num_batches : ℕ → ℕ → ℕ
  num_batches n batch_size = (n + (batch_size - 1)) / batch_size

  unfoldable pub run_from : (ℕ → Bool) → List ℕ → ℕ → ℕ → Inbox S → Answer (List (List ℕ)) × Inbox S
  unfolding process_batches
  run_from tracked [] batch_size now s = (returned [], s)
  run_from tracked (did ∷ dids) zero now s = (raised division_by_zero, s)
  run_from tracked (did ∷ dids) (suc b) now s =
      process_batches tracked (did ∷ dids) (suc b) now 0 (num_batches (length (did ∷ dids)) (suc b))
        s

  unfoldable pub run_batch : List ℕ → ℕ → ℕ → Inbox S → Answer (List (List ℕ)) × Inbox S
  unfolding run_from is_tracked is_unanalyzed
  run_batch inbox_doc_ids batch_size now s =
      run_from (is_tracked s.tracking) (keep (is_unanalyzed s.tracking) inbox_doc_ids) batch_size
        now s
