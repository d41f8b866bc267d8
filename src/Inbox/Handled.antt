-- ===== src/Inbox/Handled.antt =====
-- The calls of the analysis callback in a scheduled run (run_batch in backend/inbox_monitor.py).
use mathlib.Core.Path.{subst}
use paperless_iq.Prelude.{
  ℕ, zero, suc, ◌≡◌, refl, sym, ap, ◌∙◌, Bool, true, false, List, [], ◌∷◌, ◌++◌, length, keep,
  nat_eq, string_eq,
}
use paperless_iq.Inbox.Monitor.{
  returned, Inbox, is_tracked, is_unanalyzed, track, mark_analyzed, called, call_submit,
  ensure_tracked, process, slice, process_batches, num_batches, run_from, run_batch,
}
use paperless_iq.Inbox.Submissions.{track_if}
use paperless_iq.Inbox.Batches.{joined, Good, Good-out, and_then-Good, slices, all_slices}

-- The calls after some more, latest first.
abbrev pub called_with : List ℕ → List ℕ → List ℕ
called_with [] calls = calls
called_with (did ∷ dids) calls = called_with dids (did ∷ calls)

called_with-append :
    (xs ys calls : List ℕ) → called_with (xs ++ ys) calls ≡ called_with ys (called_with xs calls)
called_with-append [] ys calls = refl
called_with-append (x ∷ xs) ys calls = called_with-append xs ys (x ∷ calls)

module _ {S : Type 0} (submit : ℕ → S → Bool × S) where
  -- What is outside after the callback has been called with each of the documents.
  abbrev pub outside_after : List ℕ → S → S
  outside_after [] o = o
  outside_after (did ∷ dids) o = outside_after dids (submit did o).1

  outside_after-append :
      (xs ys : List ℕ) (o : S) → outside_after (xs ++ ys) o ≡ outside_after ys (outside_after xs o)
  outside_after-append [] ys o = refl
  outside_after-append (x ∷ xs) ys o = outside_after-append xs ys (submit x o).1

  abbrev Calls : List ℕ → S → Inbox S → Type 0
  Calls calls o s = (s.submissions ≡ calls) × (s.outside ≡ o)

  module _ (tracked : ℕ → Bool) (now : ℕ) where
    ensure-Calls :
        (did : ℕ) (calls : List ℕ) (o : S) (s : Inbox S) (b : Bool)
        → Calls calls o s
        → Good (λ (u : Unit {0}) s'. Calls calls o s') (ensure_tracked submit b did now s)
    unfolding track
    ensure-Calls did calls o s true h = h
    ensure-Calls did calls o s false h = added (is_tracked s.tracking did)
      where
        added :
            (b : Bool) → Good (λ (u : Unit {0}) s'. Calls calls o s') (track_if submit b did now s)
        added true = tt
        added false = h

    call-Calls :
        (did : ℕ) (calls : List ℕ) (o : S) (s : Inbox S)
        → Calls calls o s
        → Good
            (λ (u : Unit {0}) s'. Calls (did ∷ calls) (submit did o).1 s')
            (call_submit submit did s)
    unfolding call_submit
    call-Calls did calls o s h = go (submit did s.outside) (ap (λ x. (submit did x).1) h.1)
      where
        go :
            (r : Bool × S)
            → r.1 ≡ (submit did o).1
            → Good
                (λ (u : Unit {0}) s'. Calls (did ∷ calls) (submit did o).1 s')
                (called submit did s r)
        go (true, x) e = (ap (◌∷◌ did) h.0, e)
        go (false, x) e = tt

    process-Calls :
        (dids calls : List ℕ) (o : S) (s : Inbox S)
        → Calls calls o s
        → Good
            (λ (u : Unit {0}) s'. Calls (called_with dids calls) (outside_after dids o) s')
            (process submit tracked dids now s)
    unfolding process mark_analyzed
    process-Calls [] calls o s h = h
    process-Calls (did ∷ dids) calls o s h =
        and_then-Good (λ (u : Unit {0}) s'. Calls calls o s') _
          (ensure_tracked submit (tracked did) did now s) _
          (ensure-Calls did calls o s (tracked did) h)
          λ u s₁ q.
            and_then-Good (λ (u : Unit {0}) s'. Calls (did ∷ calls) (submit did o).1 s') _
              (call_submit submit did s₁) _ (call-Calls did calls o s₁ q)
              λ v s₂ r.
                process-Calls dids (did ∷ calls) (submit did o).1 (mark_analyzed did now s₂) r

    batches-Calls :
        (un : List ℕ) (size i k : ℕ) (calls : List ℕ) (o : S) (s : Inbox S)
        → Calls calls o s
        → Good
            (λ (bs : List (List ℕ)) s'.
              Calls
                (called_with (joined (slices submit un size i k)) calls)
                (outside_after (joined (slices submit un size i k)) o)
                s')
            (process_batches submit tracked un size now i k s)
    unfolding process_batches
    batches-Calls un size i zero calls o s h = h
    batches-Calls un size i (suc k) calls o s h =
        let now_ = slice submit un size i in
        let later = joined (slices submit un size (suc i) k) in
        and_then-Good
          (λ (u : Unit {0}) s'. Calls (called_with now_ calls) (outside_after now_ o) s') _
          (process submit tracked now_ now s) _ (process-Calls now_ calls o s h)
          λ u s₁ q.
            and_then-Good
              (λ (bs : List (List ℕ)) s'.
                Calls (called_with later (called_with now_ calls))
                  (outside_after later (outside_after now_ o)) s')
              _ (process_batches submit tracked un size now (suc i) k s₁) _
              (batches-Calls un size (suc i) k (called_with now_ calls) (outside_after now_ o) s₁ q)
              λ bs s₂ r. (
                r.0 ∙ sym (called_with-append now_ later calls),
                r.1 ∙ sym (outside_after-append now_ later o),
              )

    run_from-Calls :
        (un : List ℕ) (size : ℕ) (calls : List ℕ) (o : S) (s : Inbox S)
        → Calls calls o s
        → Good
            (λ (bs : List (List ℕ)) s'. Calls (called_with un calls) (outside_after un o) s')
            (run_from submit tracked un size now s)
    unfolding run_from
    run_from-Calls [] size calls o s h = h
    run_from-Calls (d ∷ ds) zero calls o s h = tt
    run_from-Calls (d ∷ ds) (suc n) calls o s h =
        subst
          (λ l.
            Good (λ (bs : List (List ℕ)) s'. Calls (called_with l calls) (outside_after l o) s')
              (run_from submit tracked (d ∷ ds) (suc n) now s))
          (all_slices submit d ds n)
          (batches-Calls (d ∷ ds) (suc n) 0 (num_batches submit (length (d ∷ ds)) (suc n)) calls o s
            h)

  -- A scheduled run that returns has called the callback with exactly the unanalyzed documents of the
  -- inbox, in its order, and what is outside is what these calls have made of it.
  pub run_batch_submits :
      (docs : List ℕ) (batch_size now : ℕ) (s : Inbox S) (batches : List (List ℕ))
      → (run_batch submit docs batch_size now s).0 ≡ returned batches
      → ((run_batch submit docs batch_size now s).1.submissions
          ≡ called_with (keep (is_unanalyzed s.tracking) docs) s.submissions)
        × ((run_batch submit docs batch_size now s).1.outside
            ≡ outside_after (keep (is_unanalyzed s.tracking) docs) s.outside)
  unfolding run_batch
  run_batch_submits docs batch_size now s batches h =
      let un = keep (is_unanalyzed s.tracking) docs in
      Good-out (λ bs s'. Calls (called_with un s.submissions) (outside_after un s.outside) s') _
        batches
        (run_from-Calls (is_tracked s.tracking) now un batch_size s.submissions s.outside s
          (refl, refl))
        h
