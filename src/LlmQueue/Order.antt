-- ===== src/LlmQueue/Order.antt =====
-- The order in which asyncio.PriorityQueue gives out the entries of OllamaQueue
-- (backend/ollama_queue.py).
use mathlib.Core.List.{Perm}
use mathlib.Core.List.Perm
use paperless_iq.Prelude.{
  suc, ◌≤◌, ◌<◌, ◌≡◌, refl, ap, ◌⊎◌, inl, inr, true, false, List, [], ◌∷◌, arith, if◌then◌else◌,
  Bool-cases, length, All, nat_eq, string_eq,
}
use paperless_iq.LlmQueue.Requests.{priority_value, QueueEntry, runs_before, least}

-- `r` has the lower priority value, or the same one and is no later.
abbrev pub NotBefore : QueueEntry → QueueEntry → Type 0
NotBefore r s =
    (priority_value r.priority < priority_value s.priority)
    ⊎ ((priority_value r.priority ≡ priority_value s.priority) × (r.time ≤ s.time))

NotBefore-trans : (r s t : QueueEntry) → NotBefore r s → NotBefore s t → NotBefore r t
NotBefore-trans r s t h q = ground arith

runs_before-NotBefore : (r s : QueueEntry) → runs_before s r ≡ false → NotBefore r s
unfolding runs_before
runs_before-NotBefore r s h = ground arith

before_asym : (r s : QueueEntry) → runs_before r s ≡ true → NotBefore r s
unfolding runs_before
before_asym r s h = ground arith

not_itself : (r : QueueEntry) → NotBefore r r
not_itself r = inr (refl, omega arith)

-- Nothing stands in front of a request that comes before it.
abbrev pub InOrder : List QueueEntry → Type 0
InOrder [] = Unit {0}
InOrder (r ∷ rs) = All (NotBefore r) rs × InOrder rs

-- What `least` gives out, and what it leaves.
pub record Least (r : QueueEntry) (queue : List QueueEntry) (given : QueueEntry × List QueueEntry)
    : Type 0 where
  pub perm : Perm (given.0 ∷ given.1) (r ∷ queue)
  pub first : All (NotBefore given.0) given.1
  pub head : NotBefore given.0 r

next_earlier :
    (r s : QueueEntry) (queue : List QueueEntry) (given : QueueEntry × List QueueEntry)
    → runs_before s r ≡ true
    → Least s queue given
    → Least r (s ∷ queue) (given.0, r ∷ given.1)
next_earlier r s queue given e l = record {
  perm = Perm.trans (Perm.swap r given.0 given.1) (Perm.cons r l.perm);
  first = (NotBefore-trans given.0 s r l.head (before_asym s r e), l.first);
  head = NotBefore-trans given.0 s r l.head (before_asym s r e);
}

next_later :
    (r s : QueueEntry) (queue : List QueueEntry) (given : QueueEntry × List QueueEntry)
    → NotBefore r s
    → Least r queue given
    → Least r (s ∷ queue) (given.0, s ∷ given.1)
next_later r s queue given e l = record {
  perm =
      Perm.trans (Perm.swap s given.0 given.1)
        (Perm.trans (Perm.cons s l.perm) (Perm.swap r s queue));
  first = (NotBefore-trans given.0 r s l.head e, l.first);
  head = l.head;
}

pub least_lem : (r : QueueEntry) (queue : List QueueEntry) → Least r queue (least r queue)
unfolding least
least_lem r [] = record { perm = Perm.refl (r ∷ []); first = tt; head = not_itself r }
least_lem r (s ∷ queue) = elim (Bool-cases (runs_before s r)) [
  | inl e ↦ rw e (next_earlier r s queue (least s queue) e (least_lem s queue))
  | inr e ↦
      rw e (next_later r s queue (least r queue) (runs_before-NotBefore r s e) (least_lem r queue))
]

pub length-least :
    (r : QueueEntry) (queue : List QueueEntry) → length (least r queue).1 ≡ length queue
unfolding least
length-least r [] = refl
length-least r (s ∷ queue) = ap suc (length-least (if runs_before s r then s else r) queue)

pub All-least :
    (P : QueueEntry → Type 0) (r : QueueEntry) (queue : List QueueEntry)
    → P r
    → All P queue
    → P (least r queue).0 × All P (least r queue).1
unfolding least
All-least P r [] p a = (p, a)
All-least P r (s ∷ queue) p a = elim (Bool-cases (runs_before s r)) [
  | inl e ↦ rw e (let l = All-least P s queue a.0 a.1 in (l.0, (p, l.1)))
  | inr e ↦ rw e (let l = All-least P r queue p a.1 in (l.0, (a.0, l.1)))
]
