-- ===== src/Inbox/Returning.antt =====
-- When a scheduled run returns (run_batch in backend/inbox_monitor.py).
use mathlib.Core.Path.{subst}
use paperless_iq.Prelude.{
  ℕ, zero, suc, ◌≤◌, ◌≡◌, refl, sym, ap, ◌∙◌, inl, inr, Bool, true, false, ◌||◌, none, List, [],
  ◌∷◌, ◌++◌, arith, eqb, eqb_iff, Bool-cases, length, keep, nat_eq, string_eq, contains,
}
use paperless_iq.Inbox.Monitor.{
  Answer, returned, Inbox, find_row, is_tracked, is_unanalyzed, and_then, track, mark_analyzed,
  called, call_submit, ensure_tracked, process, slice, process_batches, num_batches, run_from,
  run_batch,
}
use paperless_iq.Inbox.Submissions.{added, is_tracked-append, is_tracked-stamp}
use paperless_iq.Inbox.Batches.{joined, slices, all_slices}

-- A method that returns, with a postcondition.
record Fine {ℓ κ} {S : Type 0} {A : Type ℓ} (P : Inbox S → Type κ) (r : Answer A × Inbox S)
    : Type (ℓ ⊔ κ) where
  value : A
  state : Inbox S
  returns : r ≡ (returned value, state)
  holds : P state

and_then-Fine {ℓ κ μ ν} :
    {S : Type 0} {A : Type ℓ} {B : Type κ} (P : Inbox S → Type μ) (Q : Inbox S → Type ν)
    (r : Answer A × Inbox S) (f : A → Inbox S → Answer B × Inbox S)
    → Fine P r
    → ((a : A) (s : Inbox S) → P s → Fine Q (f a s))
    → Fine Q (and_then r f)
and_then-Fine P Q r f p h =
    subst (λ x. Fine Q (and_then x f)) (sym p.returns) (h p.value p.state p.holds)

-- No document twice.
abbrev pub AllDistinct : List ℕ → Type 0
AllDistinct [] = Unit
AllDistinct (x ∷ xs) = (contains xs x ≡ false) × AllDistinct xs

contains-keep :
    (p : ℕ → Bool) (xs : List ℕ) (x : ℕ) → contains xs x ≡ false → contains (keep p xs) x ≡ false
contains-keep p [] x h = refl
contains-keep p (y ∷ xs) x h = ground (arith, contains-keep p xs x)

AllDistinct-keep : (p : ℕ → Bool) (xs : List ℕ) → AllDistinct xs → AllDistinct (keep p xs)
AllDistinct-keep p [] d = tt
AllDistinct-keep p (x ∷ xs) d = elim (Bool-cases (p x)) [
  | inl e ↦ rw e (contains-keep p xs x d.0, AllDistinct-keep p xs d.1)
  | inr e ↦ rw e (AllDistinct-keep p xs d.1)
]

tail_distinct : (xs ys : List ℕ) → AllDistinct (xs ++ ys) → AllDistinct ys
tail_distinct [] ys d = d
tail_distinct (x ∷ xs) ys d = tail_distinct xs ys d.1

other_row :
    (did now j : ℕ) (b : Bool)
    → eqb did j ≡ false
    → (b
        || is_tracked
            (record { document_id = did; first_seen_at = now; last_analyzed_at = none } ∷ [])
            j)
      ≡ b
unfolding is_tracked find_row
other_row did now j b n = ground (arith, n)

module _ {S : Type 0} (submit : ℕ → S → Bool × S)
    (total : (did : ℕ) (o : S) → (submit did o).0 ≡ true) (tracked : ℕ → Bool) (now : ℕ) where
  -- The documents to come that had no row at the start have none yet.
  record Fresh (todo : List ℕ) (s : Inbox S) : Type 0 where
    absent : (j : ℕ) → contains todo j ≡ true → tracked j ≡ false → is_tracked s.tracking j ≡ false

  -- The table but for one document.
  record Others (did : ℕ) (s s' : Inbox S) : Type 0 where
    same : (j : ℕ) → eqb did j ≡ false → is_tracked s'.tracking j ≡ is_tracked s.tracking j

  ensure-Fine :
      (did : ℕ) (s : Inbox S) (b : Bool)
      → tracked did ≡ b
      → (b ≡ false → is_tracked s.tracking did ≡ false)
      → Fine (Others did s) (ensure_tracked submit b did now s)
  unfolding track
  ensure-Fine did s true e h = record {
    value = tt;
    state = s;
    returns = refl;
    holds = record { same = λ j n. refl };
  }
  ensure-Fine did s false e h = record {
    value = tt;
    state = added submit did now s;
    returns = rw (h refl) refl;
    holds = record {
      same = λ j n.
          is_tracked-append s.tracking
            (record { document_id = did; first_seen_at = now; last_analyzed_at = none } ∷ []) j
          ∙ other_row did now j (is_tracked s.tracking j) n;
    };
  }

  called-Fine :
      (did : ℕ) (s : Inbox S) (r : Bool × S)
      → r.0 ≡ true
      → Fine (Others did s) (called submit did s r)
  called-Fine did s (true, o) h = record {
    value = tt;
    state = record s { outside = o; submissions = did ∷ s.submissions };
    returns = refl;
    holds = record { same = λ j n. refl };
  }
  called-Fine did s (false, o) h = cc

  call-Fine : (did : ℕ) (s : Inbox S) → Fine (Others did s) (call_submit submit did s)
  unfolding call_submit
  call-Fine did s = called-Fine did s (submit did s.outside) (total did s.outside)

  step-Fresh :
      (did : ℕ) (todo : List ℕ) (s s₁ s₂ : Inbox S)
      → contains todo did ≡ false
      → Fresh (did ∷ todo) s
      → Others did s s₁
      → Others did s₁ s₂
      → Fresh todo (mark_analyzed did now s₂)
  unfolding mark_analyzed
  step-Fresh did todo s s₁ s₂ d f a b = record {
    absent = λ j c t. is_tracked-stamp did now s₂.tracking j ∙ go j c t;
  }
    where
      differs : (j : ℕ) → contains todo j ≡ true → eqb did j ≡ false
      differs j c = elim (Bool-cases (eqb did j)) [
        | inl e ↦ absurd (cc (ap (contains todo) ((eqb_iff did j).0 e), c, d))
        | inr e ↦ e
      ]

      go : (j : ℕ) → contains todo j ≡ true → tracked j ≡ false → is_tracked s₂.tracking j ≡ false
      go j c t =
          b.same j (differs j c) ∙ (a.same j (differs j c) ∙ f.absent j (ground (arith, c)) t)

  process-Fine :
      (dids rest : List ℕ) (s : Inbox S)
      → AllDistinct (dids ++ rest)
      → Fresh (dids ++ rest) s
      → Fine (Fresh rest) (process submit tracked dids now s)
  unfolding process
  process-Fine [] rest s d f = record { value = tt; state = s; returns = refl; holds = f }
  process-Fine (did ∷ dids) rest s d f =
      and_then-Fine (Others did s) (Fresh rest) (ensure_tracked submit (tracked did) did now s) _
        (ensure-Fine did s (tracked did) refl (f.absent did (ground (arith, eqb_iff did did))))
        λ u s₁ a.
          and_then-Fine (Others did s₁) (Fresh rest) (call_submit submit did s₁) _
            (call-Fine did s₁)
            λ v s₂ b.
              process-Fine dids rest (mark_analyzed did now s₂) d.1
                (step-Fresh did (dids ++ rest) s s₁ s₂ d.0 f a b)

  batches-Fine :
      (un : List ℕ) (size i k : ℕ) (s : Inbox S)
      → AllDistinct (joined (slices submit un size i k))
      → Fresh (joined (slices submit un size i k)) s
      → Fine (Fresh []) (process_batches submit tracked un size now i k s)
  unfolding process_batches
  batches-Fine un size i zero s d f = record { value = []; state = s; returns = refl; holds = f }
  batches-Fine un size i (suc k) s d f =
      and_then-Fine (Fresh (joined (slices submit un size (suc i) k))) (Fresh [])
        (process submit tracked (slice submit un size i) now s) _
        (process-Fine (slice submit un size i) (joined (slices submit un size (suc i) k)) s d f)
        λ u s₁ g.
          and_then-Fine (Fresh []) (Fresh [])
            (process_batches submit tracked un size now (suc i) k s₁) _
            (batches-Fine un size (suc i) k s₁
              (tail_distinct (slice submit un size i) (joined (slices submit un size (suc i) k)) d)
              g)
            λ bs s₂ h. record {
              value = slice submit un size i ∷ bs;
              state = s₂;
              returns = refl;
              holds = h;
            }

  run_from-Fine :
      (un : List ℕ) (b : ℕ) (s : Inbox S)
      → AllDistinct un
      → Fresh un s
      → Fine (Fresh []) (run_from submit tracked un (suc b) now s)
  unfolding run_from
  run_from-Fine [] b s d f = record { value = []; state = s; returns = refl; holds = f }
  run_from-Fine (x ∷ xs) b s d f =
      batches-Fine (x ∷ xs) (suc b) 0 (num_batches submit (length (x ∷ xs)) (suc b)) s
        (subst AllDistinct (sym (all_slices submit x xs b)) d)
        (subst (λ l. Fresh l s) (sym (all_slices submit x xs b)) f)

-- A scheduled run over an inbox without repetitions, with a positive batch size and a callback that
-- never raises, returns.
pub run_batch_returns :
    {S : Type 0} (submit : ℕ → S → Bool × S) (docs : List ℕ) (batch_size now : ℕ) (s : Inbox S)
    → ((did : ℕ) (o : S) → (submit did o).0 ≡ true)
    → AllDistinct docs
    → 1 ≤ batch_size
    → (batches : List (List ℕ)) × ((run_batch submit docs batch_size now s).0 ≡ returned batches)
unfolding run_batch
run_batch_returns submit docs zero now s t d b = absurd (omega arith)
run_batch_returns submit docs (suc n) now s t d b =
    let f =
      run_from-Fine submit t (is_tracked s.tracking) now (keep (is_unanalyzed s.tracking) docs) n s
        (AllDistinct-keep (is_unanalyzed s.tracking) docs d) (record { absent = λ j c e. e }) in
    (f.value, ap (λ r. r.0) f.returns)
