-- ===== src/Inbox/Submissions.antt =====
-- Runs of the inbox monitor (backend/inbox_monitor.py) and their submissions.
use paperless_iq.Prelude.{
  ℕ, ◌≤◌, ◌≡◌, refl, inl, inr, Bool, true, false, ◌||◌, not, none, List, [], ◌∷◌, ◌++◌, arith, eqb,
  if◌then◌else◌, eqb_iff, Bool-cases, keep, nat_eq, string_eq, occurrences, one_if,
}
use paperless_iq.Inbox.Monitor.{
  Tracking, duplicate_key, Answer, returned, raised, Inbox, find_row, is_tracked, stamp, and_then,
  and_then-keeps, track, mark_analyzed, called, call_submit, submit_new, poll,
}

pub is_tracked-append :
    (ts us : List Tracking) (j : ℕ) → is_tracked (ts ++ us) j ≡ (is_tracked ts j || is_tracked us j)
unfolding is_tracked find_row
is_tracked-append [] us j = refl
is_tracked-append (t ∷ ts) us j = ground (arith, is_tracked-append ts us j)

pub is_tracked-stamp :
    (did now : ℕ) (ts : List Tracking) (j : ℕ) → is_tracked (stamp did now ts) j ≡ is_tracked ts j
unfolding is_tracked stamp find_row
is_tracked-stamp did now [] j = refl
is_tracked-stamp did now (t ∷ ts) j = ground (arith, is_tracked-stamp did now ts j)

-- What the monitor keeps: a document is submitted at most once, and only when it is tracked.
pub record Once {S : Type 0} (s : Inbox S) : Type 0 where
  pub bound : (j : ℕ) → occurrences j s.submissions ≤ one_if (is_tracked s.tracking j)

-- One call of the monitor.
pub data Call : Type 0 where
  polls : List ℕ → ℕ → Call
  marks : ℕ → ℕ → Call

module _ {S : Type 0} (submit : ℕ → S → Bool × S) where
  pub called_lem :
      (did : ℕ) (s : Inbox S) (r : Bool × S)
      → ((called submit did s r).1.tracking ≡ s.tracking)
        × ((called submit did s r).1.submissions ≡ did ∷ s.submissions)
  called_lem did s (true, o) = (refl, refl)
  called_lem did s (false, o) = (refl, refl)

  abbrev pub added : ℕ → ℕ → Inbox S → Inbox S
  added did now s = record s {
    tracking =
        s.tracking
        ++ record { document_id = did; first_seen_at = now; last_analyzed_at = none } ∷ [];
  }

  counted :
      (did now : ℕ) (s : Inbox S) (j : ℕ)
      → Once s
      → is_tracked s.tracking did ≡ false
      → occurrences j (did ∷ s.submissions)
        ≤ one_if (
            is_tracked s.tracking j
            || is_tracked
                (record { document_id = did; first_seen_at = now; last_analyzed_at = none } ∷ [])
                j)
  unfolding is_tracked find_row
  counted did now s j o new = elim (Bool-cases (eqb j did)) [
    | inl e ↦ ground (arith, o.bound j, eqb_iff j did, eqb_iff did j)
    | inr e ↦ ground (arith, o.bound j, eqb_iff j did, eqb_iff did j)
  ]

  called-Once :
      (did now : ℕ) (s : Inbox S) (r : Bool × S)
      → Once s
      → is_tracked s.tracking did ≡ false
      → Once (called submit did (added did now s) r).1
  called-Once did now s r o new = record {
    bound = λ j.
        rw
          (
            (called_lem did (added did now s) r).0,
            (called_lem did (added did now s) r).1,
            is_tracked-append s.tracking
                (record { document_id = did; first_seen_at = now; last_analyzed_at = none } ∷ []) j,
          )
          (counted did now s j o new);
  }

  abbrev pub track_if : Bool → ℕ → ℕ → Inbox S → Answer (Unit {0}) × Inbox S
  track_if b did now s = if b then (raised duplicate_key, s) else (returned tt, added did now s)

  track-Once :
      (did now : ℕ) (s : Inbox S) (b : Bool) {B : Type 0}
      (f : Unit {0} → Inbox S → Answer B × Inbox S)
      → is_tracked s.tracking did ≡ b
      → Once s
      → ((s' : Inbox S) → Once s' → Once (f tt s').1)
      → Once (and_then (track_if b did now s) (λ u s₁. and_then (call_submit submit did s₁) f)).1
  unfolding call_submit
  track-Once did now s true f e o keeps = o
  track-Once did now s false f e o keeps =
      and_then-keeps Once (call_submit submit did (added did now s)) f
        (called-Once did now s (submit did s.outside) o e) (λ u s' q. keeps s' q)

  submit_new-Once :
      (dids : List ℕ) (now : ℕ) (s : Inbox S) → Once s → Once (submit_new submit dids now s).1
  unfolding submit_new track
  submit_new-Once [] now s o = o
  submit_new-Once (did ∷ dids) now s o =
      track-Once did now s (is_tracked s.tracking did) _ refl o λ s' q.
        and_then-keeps Once (submit_new submit dids now s') _ (submit_new-Once dids now s' q)
          (λ a s'' h. h)

  unfoldable pub step : Inbox S → Call → Inbox S
  step s (polls inbox_doc_ids now) = (poll submit inbox_doc_ids now s).1
  step s (marks did now) = mark_analyzed did now s

  unfoldable pub run : Inbox S → List Call → Inbox S
  unfolding step
  run s [] = s
  run s (c ∷ cs) = run (step s c) cs

  step-Once : (s : Inbox S) (c : Call) → Once s → Once (step s c)
  unfolding step poll mark_analyzed
  step-Once s (polls inbox_doc_ids now) o =
      submit_new-Once (keep (λ did. not (is_tracked s.tracking did)) inbox_doc_ids) now s o
  step-Once s (marks did now) o = record {
    bound = λ j. rw (is_tracked-stamp did now s.tracking j) (o.bound j);
  }

  run-Once : (s : Inbox S) (cs : List Call) → Once s → Once (run s cs)
  unfolding run
  run-Once s [] o = o
  run-Once s (c ∷ cs) o = run-Once (step s c) cs (step-Once s c o)

  one_if_le : (b : Bool) → one_if b ≤ 1
  one_if_le true = omega arith
  one_if_le false = omega arith

  -- However often the monitor polls, whatever the inbox holds and whether the callback returns or
  -- raises, no document is submitted twice.
  pub run_submits_once :
      (s : Inbox S) (cs : List Call) (j : ℕ)
      → s.submissions ≡ []
      → occurrences j (run s cs).submissions ≤ 1
  run_submits_once s cs j h = omega (
    arith,
    (run-Once s cs (record { bound = λ i. rw h (omega arith) })).bound j,
    one_if_le (is_tracked (run s cs).tracking j),
  )
