-- ===== src/LlmQueue/Examples.antt =====
-- Runs of OllamaQueue (backend/ollama_queue.py).
use paperless_iq.Prelude.{
  ℕ, String, ◌≡◌, refl, true, false, none, [], ◌∷◌, arith, nat_eq, string_eq,
}
use paperless_iq.Prelude.Dict.{get, put}
use paperless_iq.LlmQueue.Requests.{
  Priority, analysis, embedding, health_check, QueueEntry, Outcome, result, OllamaQueue,
  runs_before, least, submit, remove_label, or_none, forget_label, start_request, begin, set_future,
  end_request, finish_request, turn, worker,
}
use paperless_iq.LlmQueue.Draining.{Drained, worker_drains}
use paperless_iq.LlmQueue.Accounting.{
  Run, started, submitted, begun, finished, places, requests_accounted,
}

abbrev new_queue : OllamaQueue
new_queue = record {
  queue = [];
  pause_event = true;
  active = none;
  active_label = none;
  pending_labels = [];
  futures = [];
}

abbrev request : Priority → ℕ → ℕ → String → QueueEntry
request priority time future label = record {
  priority = priority;
  time = time;
  future = future;
  label = label;
}

abbrev busy : OllamaQueue
busy = record new_queue {
  queue =
      request embedding 1 11 "embed"
      ∷ request health_check 2 12 ""
      ∷ request analysis 3 13 "document 7"
      ∷ request embedding 4 14 "embed"
      ∷ [];
  pause_event = false;
  pending_labels = "embed" ∷ "document 7" ∷ "embed" ∷ [];
}

abbrev echo : QueueEntry → Outcome
echo r = result r.time

busy_drained : worker 5 echo busy ≡ record new_queue {
  futures = (13, result 3) ∷ (11, result 1) ∷ (14, result 4) ∷ (12, result 2) ∷ [];
}
unfolding worker turn begin finish_request start_request end_request least runs_before set_future
    get put forget_label remove_label or_none
busy_drained = refl

worker_drains_example : Drained echo busy (worker 5 echo busy)
unfolding get
worker_drains_example = worker_drains echo busy refl (
  refl,
  (refl, (refl, (refl, tt))),
  (refl, (refl, (refl, tt)), (refl, (refl, tt), (refl, tt, tt))),
)

-- An analysis is submitted while an embedding is active, and is not done yet.
abbrev after_embedding : OllamaQueue
after_embedding =
    begin
      (finish_request echo (submit analysis 2 21 "" (begin (submit embedding 1 20 "" new_queue))))

idle_before : (submit embedding 1 20 "" new_queue).active ≡ none
unfolding submit
idle_before = refl

idle_after :
    (finish_request echo
      (submit analysis 2 21 "" (begin (submit embedding 1 20 "" new_queue)))).active
    ≡ none
unfolding submit finish_request begin start_request end_request least
idle_after = refl

embedding-Run : Run echo (21 ∷ 20 ∷ []) after_embedding
embedding-Run =
    begun
      (finished (
        submitted analysis 2 21 "" (
          begun (submitted embedding 1 20 "" (started {q = new_queue} refl refl refl))
            idle_before)))
      idle_after

requests_accounted_example : places 21 after_embedding ≡ 1
requests_accounted_example =
    requests_accounted {fn = echo} {fs = 21 ∷ 20 ∷ []} {q = after_embedding} 21 embedding-Run
      (omega arith)
