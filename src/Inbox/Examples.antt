-- ===== src/Inbox/Examples.antt =====
-- The theorems about the inbox at small concrete inputs.
use paperless_iq.Prelude.{
  ℕ, suc, ◌≤◌, ◌≡◌, refl, Bool, true, false, not, none, some, List, [], ◌∷◌, arith, keep, nat_eq,
  string_eq, ◌==◌, occurrences,
}
use paperless_iq.Inbox.Monitor.{Inbox, is_unanalyzed, run_batch}
use paperless_iq.Inbox.Submissions.{Call, polls, marks, run, run_submits_once}
use paperless_iq.Inbox.Handled.{called_with, outside_after, run_batch_submits}
use paperless_iq.Inbox.Monitor.{returned}
use paperless_iq.Inbox.Returning.{run_batch_returns}
use paperless_iq.Inbox.Settling.{run_batch_settles}

-- A callback that counts its calls, and raises for document 9.
abbrev counting : ℕ → ℕ → Bool × ℕ
counting did n = (not (did == 9), suc n)

abbrev fresh : Inbox ℕ
fresh = record { tracking = []; outside = 0; submissions = [] }

abbrev seen_once : Inbox ℕ
seen_once = record {
  tracking =
      record { document_id = 4; first_seen_at = 1; last_analyzed_at = some 2 }
      ∷ record { document_id = 5; first_seen_at = 1; last_analyzed_at = none }
      ∷ [];
  outside = 0;
  submissions = [];
}

abbrev calls : List Call
calls = polls (5 ∷ 9 ∷ []) 1 ∷ marks 5 2 ∷ polls (5 ∷ 6 ∷ 9 ∷ []) 3 ∷ []

run_submits_once_example : occurrences 5 (run counting fresh calls).submissions ≤ 1
run_submits_once_example = run_submits_once counting fresh calls 5 refl

abbrev batches : List (List ℕ)
batches = (5 ∷ 6 ∷ []) ∷ (7 ∷ []) ∷ []

run_batch_submits_example :
    ((run_batch counting (4 ∷ 5 ∷ 6 ∷ 7 ∷ []) 2 8 seen_once).1.submissions
      ≡ called_with (keep (is_unanalyzed seen_once.tracking) (4 ∷ 5 ∷ 6 ∷ 7 ∷ [])) [])
    × ((run_batch counting (4 ∷ 5 ∷ 6 ∷ 7 ∷ []) 2 8 seen_once).1.outside
        ≡ outside_after counting (keep (is_unanalyzed seen_once.tracking) (4 ∷ 5 ∷ 6 ∷ 7 ∷ [])) 0)
unfolding run_batch
run_batch_submits_example =
    run_batch_submits counting (4 ∷ 5 ∷ 6 ∷ 7 ∷ []) 2 8 seen_once batches refl

run_batch_settles_example :
    is_unanalyzed (run_batch counting (4 ∷ 5 ∷ 6 ∷ 7 ∷ []) 2 8 seen_once).1.tracking 5 ≡ false
unfolding run_batch
run_batch_settles_example =
    run_batch_settles counting (4 ∷ 5 ∷ 6 ∷ 7 ∷ []) 2 8 seen_once batches 5 refl refl

abbrev steady : ℕ → ℕ → Bool × ℕ
steady did n = (true, suc n)

run_batch_returns_example :
    (bs : List (List ℕ)) × ((run_batch steady (4 ∷ 5 ∷ 6 ∷ []) 2 8 seen_once).0 ≡ returned bs)
run_batch_returns_example =
    run_batch_returns steady (4 ∷ 5 ∷ 6 ∷ []) 2 8 seen_once (λ did o. refl)
      (refl, (refl, (refl, tt))) (omega arith)
