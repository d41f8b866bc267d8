-- ===== src/LlmQueue/Accounting.antt =====
-- The submissions and the worker of OllamaQueue (backend/ollama_queue.py), one step at a time.
use paperless_iq.Prelude.{
  ℕ, ◌+◌, ◌≤◌, String, ◌≡◌, refl, sym, ap, ◌∙◌, inl, inr, Bool, true, false, Option, none, some,
  List, [], ◌∷◌, ◌++◌, arith, eqb, if◌then◌else◌, eqb_iff, Bool-cases, is_some, nat_eq, string_eq,
  occurrences, one_if,
}
use paperless_iq.Prelude.Dict.{Dict, get, get-put}
use paperless_iq.LlmQueue.Requests.{
  Priority, embedding, QueueEntry, Outcome, OllamaQueue, runs_before, least, submit,
  submit_background, resume_background, start_request, begin, is_none, set_future, end_request,
  finish_request,
}

-- What can have happened to a queue, with the futures that were submitted, the last one first. The
-- worker begins a request when it has none.
pub data Run (fn : QueueEntry → Outcome) : List ℕ → OllamaQueue → Type 0 where
  started : {q : OllamaQueue} → q.queue ≡ [] → q.active ≡ none → q.futures ≡ [] → Run fn [] q
  submitted :
      {fs : List ℕ} {q : OllamaQueue} (p : Priority) (now f : ℕ) (label : String)
      → Run fn fs q
      → Run fn (f ∷ fs) (submit p now f label q)
  background :
      {fs : List ℕ} {q q' : OllamaQueue} (now f : ℕ) (label : String)
      → Run fn fs q
      → submit_background now f label q ≡ some q'
      → Run fn (f ∷ fs) q'
  resumed : {fs : List ℕ} {q : OllamaQueue} → Run fn fs q → Run fn fs (resume_background q)
  begun : {fs : List ℕ} {q : OllamaQueue} → Run fn fs q → q.active ≡ none → Run fn fs (begin q)
  finished : {fs : List ℕ} {q : OllamaQueue} → Run fn fs q → Run fn fs (finish_request fn q)

-- In how many places a future is: it is done, its request is active, or its requests wait.
abbrev in_active : ℕ → Option QueueEntry → ℕ
in_active f none = 0
in_active f (some r) = one_if (eqb f r.future)

abbrev in_queue : ℕ → List QueueEntry → ℕ
in_queue f [] = 0
in_queue f (r ∷ queue) = one_if (eqb f r.future) + in_queue f queue

abbrev pub places : ℕ → OllamaQueue → ℕ
places f q = one_if (is_some (get q.futures f)) + in_active f q.active + in_queue f q.queue

in_queue-append :
    (f : ℕ) (queue : List QueueEntry) (r : QueueEntry)
    → in_queue f (queue ++ r ∷ []) ≡ in_queue f queue + one_if (eqb f r.future)
in_queue-append f [] r = omega arith
in_queue-append f (s ∷ queue) r = omega (arith, in_queue-append f queue r)

in_queue-least :
    (f : ℕ) (r : QueueEntry) (queue : List QueueEntry)
    → one_if (eqb f (least r queue).0.future) + in_queue f (least r queue).1
      ≡ one_if (eqb f r.future) + in_queue f queue
unfolding least
in_queue-least f r [] = refl
in_queue-least f r (s ∷ queue) = elim (Bool-cases (runs_before s r)) [
  | inl e ↦ rw e (omega (arith, in_queue-least f s queue))
  | inr e ↦ rw e (omega (arith, in_queue-least f r queue))
]

places-submit :
    (f : ℕ) (p : Priority) (now g : ℕ) (label : String) (q : OllamaQueue)
    → places f (submit p now g label q) ≡ one_if (eqb f g) + places f q
unfolding submit
places-submit f p now g label q = omega (
  arith,
  in_queue-append f q.queue (record { priority = p; time = now; future = g; label = label }),
)

places-start :
    (f : ℕ) (queue : List QueueEntry) (q : OllamaQueue)
    → q.active ≡ none
    → q.queue ≡ queue
    → places f (start_request queue q) ≡ places f q
unfolding start_request
places-start f [] q a e = refl
places-start f (r ∷ queue) q a e =
    omega (arith, in_queue-least f r queue, ap (in_active f) a, ap (in_queue f) e)

set-get :
    (futures : Dict ℕ Outcome) (g : ℕ) (v : Outcome) (f : ℕ)
    → one_if (is_some (get (set_future futures g v) f))
      ≡ (if eqb f g then 1 else one_if (is_some (get futures f)))
unfolding set_future
set-get futures g v f = elim (Bool-cases (is_none (get futures g))) [
  | inl e ↦ rw e (rw (get-put futures g f v) (ground (arith, eqb_iff f g, eqb_iff g f)))
  | inr e ↦ rw e (elim (Bool-cases (eqb f g)) [
    | inl q ↦
        rw q (there (get futures f) (ap (λ k. is_none (get futures k)) ((eqb_iff f g).0 q) ∙ e))
    | inr q ↦ rw q refl
  ])
]
  where
    there : (o : Option Outcome) → is_none o ≡ false → one_if (is_some o) ≡ 1
    there none h = absurd (cc h)
    there (some v) h = refl

places-end :
    (f : ℕ) (fn : QueueEntry → Outcome) (active : Option QueueEntry) (q : OllamaQueue)
    → q.active ≡ active
    → places f q ≤ 1
    → places f (end_request fn active q) ≡ places f q
unfolding end_request
places-end f fn none q a l = refl
places-end f fn (some r) q a l = counted (eqb f r.future) refl
  where
    counted :
        (b : Bool)
        → eqb f r.future ≡ b
        → one_if (is_some (get (set_future q.futures r.future (fn r)) f)) + 0 + in_queue f q.queue
          ≡ one_if (is_some (get q.futures f)) + in_active f q.active + in_queue f q.queue
    counted true e = omega (
      arith,
      l,
      ap (in_active f) a,
      ap one_if e,
      set-get q.futures r.future (fn r) f
          ∙ ap (λ (b : Bool). if b then 1 else one_if (is_some (get q.futures f))) e,
    )
    counted false e = omega (
      arith,
      l,
      ap (in_active f) a,
      ap one_if e,
      set-get q.futures r.future (fn r) f
          ∙ ap (λ (b : Bool). if b then 1 else one_if (is_some (get q.futures f))) e,
    )

submits_count :
    (f g : ℕ) (fs : List ℕ) → occurrences f (g ∷ fs) ≡ one_if (eqb f g) + occurrences f fs
submits_count f g fs = ground arith

submitted_state :
    (q q' : OllamaQueue) (now g : ℕ) (label : String)
    → submit_background now g label q ≡ some q'
    → q' ≡ submit embedding now g label q
unfolding submit_background
submitted_state q q' now g label h = elim (Bool-cases q.pause_event) [
  | inl e ↦
      let s : some (submit embedding now g label q) ≡ some q' =
        sym (ap (λ (b : Bool). if b then some (submit embedding now g label q) else none) e) ∙ h in
      cc s
  | inr e ↦ absurd (
      cc (sym (ap (λ (b : Bool). if b then some (submit embedding now g label q) else none) e) ∙ h))
]

-- In every run a future that was submitted at most once is in as many places as it was submitted:
-- a request is never lost and never answered twice, whatever the interleaving.
pub requests_accounted :
    {fn : QueueEntry → Outcome} {fs : List ℕ} {q : OllamaQueue} (f : ℕ)
    → Run fn fs q
    → occurrences f fs ≤ 1
    → places f q ≡ occurrences f fs
unfolding begin finish_request resume_background submit_background get
requests_accounted f (started {q = q} e a d) l =
    omega (arith, ap (in_queue f) e, ap (in_active f) a, ap (λ o. one_if (is_some (get o f))) d)
requests_accounted f (submitted {fs = fs} {q = q} p now g label r) l =
    let c = submits_count f g fs in
    places-submit f p now g label q ∙ omega (arith, c, requests_accounted f r (omega (arith, l, c)))
requests_accounted f (background {fs = fs} {q = q} {q' = q'} now g label r h) l =
    let c = submits_count f g fs in
    ap (places f) (submitted_state q q' now g label h)
    ∙ (places-submit f embedding now g label q
        ∙ omega (arith, c, requests_accounted f r (omega (arith, l, c))))
requests_accounted f (resumed r) l = requests_accounted f r l
requests_accounted f (begun {q = q} r a) l =
    places-start f q.queue q a refl ∙ requests_accounted f r l
requests_accounted {fn} f (finished {q = q} r) l =
    let c = requests_accounted f r l in places-end f fn q.active q refl (omega (arith, c, l)) ∙ c
