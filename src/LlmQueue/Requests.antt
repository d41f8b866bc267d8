-- ===== src/LlmQueue/Requests.antt =====
-- OllamaQueue (backend/ollama_queue.py): submit, submit_background, resume_background and the steps
-- of _worker. A future is a number; what its function gives is the parameter of the step that ends
-- it. `asyncio.PriorityQueue` gives out the least entry by priority and then by time of submission.
use paperless_iq.Prelude.{
  ℕ, zero, suc, String, Bool, true, false, ◌&&◌, ◌||◌, not, Option, none, some, List, [], ◌∷◌, ◌++◌,
  ltb, eqb, if◌then◌else◌, nat_eq, string_eq, ◌==◌,
}
use paperless_iq.Prelude.Dict.{Dict, get, put}

pub data Priority : Type 0 where
  analysis embedding health_check : Priority

-- `Priority.value`
abbrev pub priority_value : Priority → ℕ
priority_value analysis = 0
priority_value embedding = 1
priority_value health_check = 2

-- An entry of the queue.
pub record QueueEntry : Type 0 where
  pub priority : Priority
  pub time : ℕ
  pub future : ℕ
  pub label : String

-- What a future was set to.
pub data Outcome : Type 0 where
  result failure : ℕ → Outcome

pub record OllamaQueue : Type 0 where
  pub queue : List QueueEntry
  pub pause_event : Bool
  pub active : Option QueueEntry
  pub active_label : Option String
  pub pending_labels : List String
  pub futures : Dict ℕ Outcome

-- The comparison of two entries of the queue.
unfoldable pub runs_before : QueueEntry → QueueEntry → Bool
runs_before r s =
    ltb (priority_value r.priority) (priority_value s.priority)
    || (eqb (priority_value r.priority) (priority_value s.priority) && ltb r.time s.time)

-- The least entry of a queue that begins with `r`, and the others.
unfoldable pub least : QueueEntry → List QueueEntry → QueueEntry × List QueueEntry
unfolding runs_before
least r [] = (r, [])
least r (s ∷ queue) =
    let rest = least (if runs_before s r then s else r) queue in
    (rest.0, (if runs_before s r then r else s) ∷ rest.1)

unfoldable pub submit : Priority → ℕ → ℕ → String → OllamaQueue → OllamaQueue
submit priority now future label q =
    let request : QueueEntry = record {
      priority = priority;
      time = now;
      future = future;
      label = label;
    } in
    record q {
      queue = q.queue ++ request ∷ [];
      pause_event = q.pause_event && not (priority_value priority == 0);
      pending_labels = if label == "" then q.pending_labels else q.pending_labels ++ label ∷ [];
    }

-- None is waiting for the event.
unfoldable pub submit_background : ℕ → ℕ → String → OllamaQueue → Option OllamaQueue
unfolding submit
submit_background now future label q =
    if q.pause_event then some (submit embedding now future label q) else none

unfoldable pub resume_background : OllamaQueue → OllamaQueue
resume_background q = record q { pause_event = true }

-- `self._pending_labels.remove(label)`, the first one.
unfoldable pub remove_label : String → List String → List String
remove_label label [] = []
remove_label label (l ∷ labels) =
    let rest = remove_label label labels in if l == label then labels else l ∷ rest

-- `label or None`
unfoldable pub or_none : String → Option String
or_none label = if label == "" then none else some label

-- `if label and label in self._pending_labels`
unfoldable pub forget_label : String → List String → List String
unfolding remove_label
forget_label label labels = if label == "" then labels else remove_label label labels

unfoldable pub start_request : List QueueEntry → OllamaQueue → OllamaQueue
unfolding least forget_label or_none
start_request [] q = record q { pause_event = true }
start_request (r ∷ queue) q =
    let next = least r queue in
    record q {
      queue = next.1;
      active = some next.0;
      active_label = or_none next.0.label;
      pending_labels = forget_label next.0.label q.pending_labels;
    }

-- The worker takes the next request; with none it resumes the background (the timeout).
unfoldable pub begin : OllamaQueue → OllamaQueue
unfolding start_request
begin q = start_request q.queue q

abbrev pub is_none {ℓ} : {A : Type ℓ} → Option A → Bool
is_none none = true
is_none (some a) = false

-- `if not future.done(): future.set_result(...)`, or `set_exception`.
unfoldable pub set_future : Dict ℕ Outcome → ℕ → Outcome → Dict ℕ Outcome
unfolding get put
set_future futures future outcome =
    if is_none (get futures future) then put futures future outcome else futures

abbrev pub no_requests : List QueueEntry → Bool
no_requests [] = true
no_requests (r ∷ queue) = false

unfoldable pub end_request : (QueueEntry → Outcome) → Option QueueEntry → OllamaQueue → OllamaQueue
unfolding set_future
end_request fn none q = q
end_request fn (some r) q = record q {
  active = none;
  active_label = none;
  pause_event = q.pause_event || no_requests q.queue;
  futures = set_future q.futures r.future (fn r);
}

-- The request ends, with the `finally` clause.
unfoldable pub finish_request : (QueueEntry → Outcome) → OllamaQueue → OllamaQueue
unfolding end_request
finish_request fn q = end_request fn q.active q

-- One turn of the worker's loop.
unfoldable pub turn : (QueueEntry → Outcome) → OllamaQueue → OllamaQueue
unfolding begin finish_request
turn fn q = finish_request fn (begin q)

-- The worker's loop, for so many turns.
unfoldable pub worker : ℕ → (QueueEntry → Outcome) → OllamaQueue → OllamaQueue
unfolding turn
worker zero fn q = q
worker (suc turns) fn q = worker turns fn (turn fn q)
