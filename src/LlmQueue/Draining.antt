-- ===== src/LlmQueue/Draining.antt =====
-- The worker of OllamaQueue (backend/ollama_queue.py) with nobody submitting.
use mathlib.Core.List.Perm
use mathlib.Core.Path.{subst}
use mathlib.Core.List.{Perm, append_assoc, append-nil}
use paperless_iq.Prelude.{
  ℕ, zero, suc, ◌≡◌, refl, sym, ap, ◌∙◌, ◌⊎◌, inl, inr, Bool, true, false, ◌||◌, none, List, [],
  ◌∷◌, ◌++◌, map, arith, eqb, if◌then◌else◌, eqb_iff, Bool-cases, length, All, nat_eq, string_eq,
}
use paperless_iq.Prelude.Dict.{Dict, get, put}
use paperless_iq.LlmQueue.Requests.{
  QueueEntry, Outcome, OllamaQueue, runs_before, least, start_request, begin, is_none, set_future,
  forget_label, no_requests, end_request, finish_request, turn, worker,
}
use paperless_iq.LlmQueue.Order.{NotBefore, InOrder, Least, least_lem, length-least, All-least}

-- No two requests have one future, and none of these is done.
abbrev pub Fresh : Dict ℕ Outcome → List QueueEntry → Type 0
Fresh futures [] = Unit {0}
Fresh futures (r ∷ queue) =
    (get futures r.future ≡ none)
    × All (λ s. eqb r.future s.future ≡ false) queue
    × Fresh futures queue

abbrev reply : (QueueEntry → Outcome) → QueueEntry → ℕ × Outcome
reply fn r = (r.future, fn r)

Apart-sym : (r s : QueueEntry) → eqb r.future s.future ≡ false → eqb s.future r.future ≡ false
Apart-sym r s h = ground (arith, eqb_iff r.future s.future, eqb_iff s.future r.future)

least_earlier :
    (r s : QueueEntry) (queue : List QueueEntry)
    → runs_before s r ≡ true
    → least r (s ∷ queue) ≡ ((least s queue).0, r ∷ (least s queue).1)
unfolding least
least_earlier r s queue e =
    ap
      (λ (b : Bool). (
        (least (if b then s else r) queue).0,
        (if b then r else s) ∷ (least (if b then s else r) queue).1,
      ))
      e

least_later :
    (r s : QueueEntry) (queue : List QueueEntry)
    → runs_before s r ≡ false
    → least r (s ∷ queue) ≡ ((least r queue).0, s ∷ (least r queue).1)
unfolding least
least_later r s queue e =
    ap
      (λ (b : Bool). (
        (least (if b then s else r) queue).0,
        (if b then r else s) ∷ (least (if b then s else r) queue).1,
      ))
      e

Fresh-least :
    (futures : Dict ℕ Outcome) (r : QueueEntry) (queue : List QueueEntry)
    → Fresh futures (r ∷ queue)
    → Fresh futures ((least r queue).0 ∷ (least r queue).1)
unfolding least
Fresh-least futures r [] f = f
Fresh-least futures r (s ∷ queue) f = elim (Bool-cases (runs_before s r)) [
  | inl e ↦
      let l = Fresh-least futures s queue f.2 in
      let apart = All-least (λ t. eqb r.future t.future ≡ false) s queue f.1.0 f.1.1 in
      subst (λ p. Fresh futures (p.0 ∷ p.1)) (sym (least_earlier r s queue e))
        (l.0, (Apart-sym r (least s queue).0 apart.0, l.1), (f.0, apart.1, l.2))
  | inr e ↦
      let l = Fresh-least futures r queue (f.0, f.1.1, f.2.2) in
      let apart =
        All-least (λ t. eqb s.future t.future ≡ false) r queue (Apart-sym r s f.1.0) f.2.1 in
      subst (λ p. Fresh futures (p.0 ∷ p.1)) (sym (least_later r s queue e))
        (l.0, (Apart-sym s (least r queue).0 apart.0, l.1), (f.2.0, apart.1, l.2))
]

put_new :
    (futures : Dict ℕ Outcome) (k : ℕ) (v : Outcome)
    → get futures k ≡ none
    → put futures k v ≡ futures ++ (k, v) ∷ []
unfolding put get
put_new [] k v h = refl
put_new ((j, w) ∷ futures) k v h = elim (Bool-cases (eqb j k)) [
  | inl e ↦ absurd (cc (rw e at h))
  | inr e ↦ rw e (ap (◌∷◌ (j, w)) (put_new futures k v (rw e at h)))
]

get-append :
    (futures : Dict ℕ Outcome) (j : ℕ) (v : Outcome) (k : ℕ)
    → eqb j k ≡ false
    → get futures k ≡ none
    → get (futures ++ (j, v) ∷ []) k ≡ none
unfolding get
get-append [] j v k e h = rw e refl
get-append ((i, w) ∷ futures) j v k e h = elim (Bool-cases (eqb i k)) [
  | inl q ↦ absurd (cc (rw q at h))
  | inr q ↦ rw q (get-append futures j v k e (rw q at h))
]

Fresh-append :
    (futures : Dict ℕ Outcome) (r : QueueEntry) (v : Outcome) (queue : List QueueEntry)
    → All (λ s. eqb r.future s.future ≡ false) queue
    → Fresh futures queue
    → Fresh (futures ++ (r.future, v) ∷ []) queue
Fresh-append futures r v [] a f = tt
Fresh-append futures r v (s ∷ queue) a f =
    (get-append futures r.future v s.future a.0 f.0, f.1, Fresh-append futures r v queue a.1 f.2)

-- What `turns` of the worker have done when they are as many as there were requests.
pub record Drained (fn : QueueEntry → Outcome) (q after : OllamaQueue) : Type 0 where
  pub order : List QueueEntry
  pub perm : Perm order q.queue
  pub in_order : InOrder order
  pub answers : after.futures ≡ q.futures ++ map (reply fn) order
  pub queue_empty : after.queue ≡ []
  pub idle : after.active ≡ none
  pub resumed : after.pause_event ≡ true

idle_turn :
    (fn : QueueEntry → Outcome) (q : OllamaQueue)
    → q.queue ≡ []
    → q.active ≡ none
    → turn fn q ≡ record q { pause_event = true }
unfolding turn begin finish_request start_request end_request
idle_turn fn q e a =
    ap (λ l. end_request fn (start_request l q).active (start_request l q)) e
    ∙ ap (λ o. end_request fn o (record q { pause_event = true })) a

-- The state after a turn that has served the least request.
abbrev served : (QueueEntry → Outcome) → QueueEntry → List QueueEntry → OllamaQueue → OllamaQueue
served fn r rest q = record q {
  queue = (least r rest).1;
  active = none;
  active_label = none;
  pending_labels = forget_label (least r rest).0.label q.pending_labels;
  pause_event = q.pause_event || no_requests (least r rest).1;
  futures = set_future q.futures (least r rest).0.future (fn (least r rest).0);
}

busy_turn :
    (fn : QueueEntry → Outcome) (q : OllamaQueue) (r : QueueEntry) (rest : List QueueEntry)
    → q.queue ≡ r ∷ rest
    → turn fn q ≡ served fn r rest q
unfolding turn begin finish_request start_request end_request
busy_turn fn q r rest e = ap (λ l. end_request fn (start_request l q).active (start_request l q)) e

set_new :
    (futures : Dict ℕ Outcome) (k : ℕ) (v : Outcome)
    → get futures k ≡ none
    → set_future futures k v ≡ futures ++ (k, v) ∷ []
unfolding set_future
set_new futures k v h =
    ap (λ o. if is_none o then put futures k v else futures) h ∙ put_new futures k v h

-- The order in which the worker serves, and what it keeps of a predicate.
record Served (fn : QueueEntry → Outcome) (q after : OllamaQueue) : Type 1 where
  drained : Drained fn q after
  every : (P : QueueEntry → Type 0) → All P q.queue → All P drained.order

nothing_left :
    (fn : QueueEntry → Outcome) (q : OllamaQueue)
    → q.queue ≡ []
    → q.active ≡ none
    → Served fn q (turn fn q)
nothing_left fn q e a = subst (Served fn q) (sym (idle_turn fn q e a)) (record {
  drained = record {
    order = [];
    perm = subst (Perm []) (sym e) (Perm.refl []);
    in_order = tt;
    answers = sym (append-nil q.futures);
    queue_empty = e;
    idle = a;
    resumed = refl;
  };
  every = λ P h. tt;
})

one_more :
    (fn : QueueEntry → Outcome) (q after : OllamaQueue) (r : QueueEntry) (rest : List QueueEntry)
    → q.queue ≡ r ∷ rest
    → Fresh q.futures (r ∷ rest)
    → Served fn (served fn r rest q) after
    → Served fn q after
one_more fn q after r rest e f s = record {
  drained = record {
    order = next ∷ s.drained.order;
    perm =
        subst (Perm (next ∷ s.drained.order)) (sym e)
          (Perm.trans (Perm.cons next s.drained.perm) l.perm);
    in_order = (s.every (NotBefore next) l.first, s.drained.in_order);
    answers =
        s.drained.answers
        ∙ (ap (λ d. d ++ map (reply fn) s.drained.order)
              (set_new q.futures next.future (fn next) fresh.0)
            ∙ append_assoc q.futures ((next.future, fn next) ∷ [])
                (map (reply fn) s.drained.order));
    queue_empty = s.drained.queue_empty;
    idle = s.drained.idle;
    resumed = s.drained.resumed;
  };
  every = λ P h.
      let a = subst (All P) e h in
      let parts = All-least P r rest a.0 a.1 in (parts.0, s.every P parts.1);
}
  where
    next : QueueEntry
    next = (least r rest).0

    l : Least r rest (least r rest)
    l = least_lem r rest

    fresh : Fresh q.futures (next ∷ (least r rest).1)
    fresh = Fresh-least q.futures r rest f

Fresh-served :
    (fn : QueueEntry → Outcome) (q : OllamaQueue) (r : QueueEntry) (rest : List QueueEntry)
    → Fresh q.futures (r ∷ rest)
    → Fresh (served fn r rest q).futures (least r rest).1
Fresh-served fn q r rest f =
    let fresh = Fresh-least q.futures r rest f in
    subst (λ d. Fresh d (least r rest).1)
      (sym (set_new q.futures (least r rest).0.future (fn (least r rest).0) fresh.0))
      (Fresh-append q.futures (least r rest).0 (fn (least r rest).0) (least r rest).1 fresh.1
        fresh.2)

queue_cases :
    (l : List QueueEntry)
    → (l ≡ []) ⊎ ((r : QueueEntry) × (rest : List QueueEntry) × (l ≡ r ∷ rest))
queue_cases [] = inl refl
queue_cases (r ∷ rest) = inr (r, rest, refl)

serves :
    (turns : ℕ) (fn : QueueEntry → Outcome) (q : OllamaQueue)
    → length q.queue ≡ turns
    → q.active ≡ none
    → Fresh q.futures q.queue
    → Served fn q (worker (suc turns) fn q)
unfolding worker
serves zero fn q n a f = elim (queue_cases q.queue) [
  | inl e ↦ nothing_left fn q e a
  | inr (r, rest, e) ↦ absurd (omega (arith, n, ap (length {0}) e))
]
serves (suc turns) fn q n a f = elim (queue_cases q.queue) [
  | inl e ↦ absurd (omega (arith, n, ap (length {0}) e))
  | inr (r, rest, e) ↦
      let fresh = subst (Fresh q.futures) e f in
      subst (λ s. Served fn q (worker (suc turns) fn s)) (sym (busy_turn fn q r rest e))
        (one_more fn q (worker (suc turns) fn (served fn r rest q)) r rest e fresh (
          serves turns fn (served fn r rest q)
            (omega (arith, n, ap (length {0}) e, length-least r rest)) refl
            (Fresh-served fn q r rest fresh)))
]

-- With a worker that is idle, futures that are distinct and not done, and nothing submitted
-- meanwhile, one turn more than there are requests answers each of them once, by priority and then
-- by time; then the queue is empty, the worker idle and the background resumed.
pub worker_drains :
    (fn : QueueEntry → Outcome) (q : OllamaQueue)
    → q.active ≡ none
    → Fresh q.futures q.queue
    → Drained fn q (worker (suc (length q.queue)) fn q)
worker_drains fn q a f = (serves (length q.queue) fn q refl a f).drained
