-- ===== src/Inbox/Settling.antt =====
-- The table after a scheduled run (run_batch in backend/inbox_monitor.py).
use mathlib.Core.Path.{subst}
use paperless_iq.Prelude.{
  ℕ, zero, suc, ◌≡◌, refl, sym, ap, ◌∙◌, inl, inr, Bool, true, false, ◌||◌, not, none, List, [],
  ◌∷◌, ◌++◌, arith, eqb, if◌then◌else◌, eqb_iff, Bool-cases, length, keep, nat_eq, string_eq, ◌==◌,
  contains,
}
use paperless_iq.Inbox.Monitor.{
  Tracking, returned, Inbox, find_row, is_tracked, is_unanalyzed, stamp, track, mark_analyzed,
  called, call_submit, ensure_tracked, process, slice, process_batches, num_batches, run_from,
  run_batch,
}
use paperless_iq.Inbox.Submissions.{track_if, is_tracked-append, is_tracked-stamp}
use paperless_iq.Inbox.Batches.{joined, Good, Good-out, and_then-Good, slices, all_slices}

-- The effect of one document on the table.
is_unanalyzed-stamp :
    (did now : ℕ) (ts : List Tracking) (j : ℕ)
    → is_tracked ts did ≡ true
    → is_unanalyzed (stamp did now ts) j ≡ (if eqb did j then false else is_unanalyzed ts j)
unfolding is_unanalyzed stamp find_row is_tracked
is_unanalyzed-stamp did now [] j h = cc
is_unanalyzed-stamp did now (t ∷ ts) j h = ground (arith, is_unanalyzed-stamp did now ts j)

is_unanalyzed-append :
    (ts : List Tracking) (did now j : ℕ)
    → is_unanalyzed
        (ts ++ record { document_id = did; first_seen_at = now; last_analyzed_at = none } ∷ [])
        j
      ≡ is_unanalyzed ts j
unfolding is_unanalyzed find_row
is_unanalyzed-append [] did now j = ground arith
is_unanalyzed-append (t ∷ ts) did now j = ground (arith, is_unanalyzed-append ts did now j)

-- The table between two documents of a run: what was tracked is tracked, and document `j` is
-- analyzed if `b` says so.
record Progress {S : Type 0} (tracked : ℕ → Bool) (j : ℕ) (b : Bool) (s : Inbox S) : Type 0 where
  held : (i : ℕ) → tracked i ≡ true → is_tracked s.tracking i ≡ true
  stamped : b ≡ true → is_unanalyzed s.tracking j ≡ false

is_tracked-new :
    (ts : List Tracking) (did now : ℕ)
    → (is_tracked ts did
        || is_tracked
            (record { document_id = did; first_seen_at = now; last_analyzed_at = none } ∷ [])
            did)
      ≡ true
unfolding is_tracked find_row
is_tracked-new ts did now = ground arith

or_assoc : (a b c : Bool) → ((a || b) || c) ≡ (a || (b || c))
or_assoc a b c = ground arith

contains-append :
    (xs ys : List ℕ) (x : ℕ) → contains (xs ++ ys) x ≡ (contains xs x || contains ys x)
contains-append [] ys x = refl
contains-append (y ∷ xs) ys x = ground (arith, contains-append xs ys x)

module _ {S : Type 0} (submit : ℕ → S → Bool × S) (tracked : ℕ → Bool) (j now : ℕ) where
  abbrev Ready : Bool → ℕ → Inbox S → Type 0
  Ready b did s = Progress tracked j b s × (is_tracked s.tracking did ≡ true)

  track_new-Ready :
      (b : Bool) (did : ℕ) (s : Inbox S) (c : Bool)
      → is_tracked s.tracking did ≡ c
      → Progress tracked j b s
      → Good (λ (u : Unit {0}) s'. Ready b did s') (track_if submit c did now s)
  track_new-Ready b did s true h p = tt
  track_new-Ready b did s false h p = (
    record {
      held = λ i t.
          rw
            (is_tracked-append s.tracking
              (record { document_id = did; first_seen_at = now; last_analyzed_at = none } ∷ []) i)
            (ground (arith, p.held i t));
      stamped = λ t. rw (is_unanalyzed-append s.tracking did now j) (p.stamped t);
    },
    rw
        (is_tracked-append s.tracking
          (record { document_id = did; first_seen_at = now; last_analyzed_at = none } ∷ []) did)
        (is_tracked-new s.tracking did now),
  )

  ensure-Ready :
      (b : Bool) (did : ℕ) (s : Inbox S) (c : Bool)
      → tracked did ≡ c
      → Progress tracked j b s
      → Good (λ (u : Unit {0}) s'. Ready b did s') (ensure_tracked submit c did now s)
  unfolding track
  ensure-Ready b did s true h p = (p, p.held did h)
  ensure-Ready b did s false h p = track_new-Ready b did s (is_tracked s.tracking did) refl p

  call-Ready :
      (b : Bool) (did : ℕ) (s : Inbox S)
      → Ready b did s
      → Good (λ (u : Unit {0}) s'. Ready b did s') (call_submit submit did s)
  unfolding call_submit
  call-Ready b did s p = go (submit did s.outside)
    where
      go : (r : Bool × S) → Good (λ (u : Unit {0}) s'. Ready b did s') (called submit did s r)
      go (true, o) = (record { held = p.0.held; stamped = p.0.stamped }, p.1)
      go (false, o) = tt

  mark-Progress :
      (b : Bool) (did : ℕ) (s : Inbox S)
      → Ready b did s
      → Progress tracked j (b || eqb did j) (mark_analyzed did now s)
  unfolding mark_analyzed
  mark-Progress b did s p = record {
    held = λ i t. rw (is_tracked-stamp did now s.tracking i) (p.0.held i t);
    stamped = λ t. rw (is_unanalyzed-stamp did now s.tracking j p.1) (ground (arith, p.0.stamped));
  }

  process-Progress :
      (dids : List ℕ) (b : Bool) (s : Inbox S)
      → Progress tracked j b s
      → Good
          (λ (u : Unit {0}) s'. Progress tracked j (b || contains dids j) s')
          (process submit tracked dids now s)
  unfolding process
  process-Progress [] b s p = subst (λ c. Progress tracked j c s) (ground arith) p
  process-Progress (did ∷ dids) b s p =
      and_then-Good (λ (u : Unit {0}) s'. Ready b did s') _
        (ensure_tracked submit (tracked did) did now s) _
        (ensure-Ready b did s (tracked did) refl p)
        λ u s₁ q.
          and_then-Good (λ (u : Unit {0}) s'. Ready b did s') _ (call_submit submit did s₁) _
            (call-Ready b did s₁ q)
            λ v s₂ r.
              subst
                (λ c.
                  Good (λ (u : Unit {0}) s'. Progress tracked j c s')
                    (process submit tracked dids now (mark_analyzed did now s₂)))
                (or_assoc b (did == j) (contains dids j))
                (process-Progress dids (b || eqb did j) (mark_analyzed did now s₂)
                  (mark-Progress b did s₂ r))

  batches-Progress :
      (un : List ℕ) (size i k : ℕ) (b : Bool) (s : Inbox S)
      → Progress tracked j b s
      → Good
          (λ (bs : List (List ℕ)) s'.
            Progress tracked j (b || contains (joined (slices submit un size i k)) j) s')
          (process_batches submit tracked un size now i k s)
  unfolding process_batches
  batches-Progress un size i zero b s p = subst (λ c. Progress tracked j c s) (ground arith) p
  batches-Progress un size i (suc k) b s p =
      and_then-Good
        (λ (u : Unit {0}) s'. Progress tracked j (b || contains (slice submit un size i) j) s') _
        (process submit tracked (slice submit un size i) now s) _
        (process-Progress (slice submit un size i) b s p)
        λ u s₁ q.
          and_then-Good
            (λ (bs : List (List ℕ)) s'.
              Progress tracked j
                ((b || contains (slice submit un size i) j)
                  || contains (joined (slices submit un size (suc i) k)) j)
                s')
            _ (process_batches submit tracked un size now (suc i) k s₁) _
            (batches-Progress un size (suc i) k (b || contains (slice submit un size i) j) s₁ q)
            λ bs s₂ r.
              subst (λ c. Progress tracked j c s₂)
                (or_assoc b (contains (slice submit un size i) j)
                    (contains (joined (slices submit un size (suc i) k)) j)
                  ∙ ap (λ c. b || c)
                      (sym (
                        contains-append (slice submit un size i)
                          (joined (slices submit un size (suc i) k)) j)))
                r

  run_from-Progress :
      (un : List ℕ) (size : ℕ) (b : Bool) (s : Inbox S)
      → Progress tracked j b s
      → Good
          (λ (bs : List (List ℕ)) s'. Progress tracked j (b || contains un j) s')
          (run_from submit tracked un size now s)
  unfolding run_from
  run_from-Progress [] size b s p = subst (λ c. Progress tracked j c s) (ground arith) p
  run_from-Progress (d ∷ ds) zero b s p = tt
  run_from-Progress (d ∷ ds) (suc n) b s p =
      subst
        (λ l.
          Good (λ (bs : List (List ℕ)) s'. Progress tracked j (b || contains l j) s')
            (run_from submit tracked (d ∷ ds) (suc n) now s))
        (all_slices submit d ds n)
        (batches-Progress (d ∷ ds) (suc n) 0 (num_batches submit (length (d ∷ ds)) (suc n)) b s p)

module _ {S : Type 0} (submit : ℕ → S → Bool × S) where
  covered :
      (docs : List ℕ) (p : ℕ → Bool) (j : ℕ)
      → contains docs j ≡ true
      → (not (p j) || contains (keep p docs) j) ≡ true
  covered [] p j h = cc
  covered (d ∷ docs) p j h = elim (Bool-cases (eqb d j)) [
    | inl e ↦ rw ((eqb_iff d j).0 e) (ground arith)
    | inr e ↦ ground (arith, covered docs p j)
  ]

  false_of_not : (b : Bool) → not b ≡ true → b ≡ false
  false_of_not b h = ground arith

  -- After a scheduled run that returns, every document of the inbox is analyzed.
  pub run_batch_settles :
      (docs : List ℕ) (batch_size now : ℕ) (s : Inbox S) (batches : List (List ℕ)) (j : ℕ)
      → (run_batch submit docs batch_size now s).0 ≡ returned batches
      → contains docs j ≡ true
      → is_unanalyzed (run_batch submit docs batch_size now s).1.tracking j ≡ false
  unfolding run_batch
  run_batch_settles docs batch_size now s batches j h c =
      let p =
        Good-out
          (λ bs s'.
            Progress (is_tracked s.tracking) j
              (not (is_unanalyzed s.tracking j)
                || contains (keep (is_unanalyzed s.tracking) docs) j)
              s')
          _ batches
          (run_from-Progress submit (is_tracked s.tracking) j now
            (keep (is_unanalyzed s.tracking) docs) batch_size (not (is_unanalyzed s.tracking j)) s
            (record { held = λ i t. t; stamped = false_of_not (is_unanalyzed s.tracking j) }))
          h in
      p.stamped (covered docs (is_unanalyzed s.tracking) j c)
