-- ===== src/LlmQueue/Breaker.antt =====
-- The circuit breaker of the embeddings in OllamaQueue (backend/ollama_queue.py). The times of the
-- health cache are left out.
use paperless_iq.Prelude.{
  ℕ, suc, ◌+◌, String, ◌≡◌, refl, Bool, true, false, Option, none, some, List, [], ◌∷◌, arith, ltb,
  leb, if◌then◌else◌, nat_eq, string_eq, ◌==◌,
}
use paperless_iq.Prelude.Dict.{Dict, put}

pub record Breaker : Type 0 where
  pub embed_available : Bool
  pub consecutive_embed_failures : ℕ
  pub last_embed_error : Option String
  pub last_health : Dict String Bool

abbrev pub embed_failure_threshold : ℕ
embed_failure_threshold = 3

unfoldable pub mark_embed_unavailable : Breaker → Breaker
unfolding put
mark_embed_unavailable b = record b {
  embed_available = false;
  last_health = put b.last_health "embed" false;
}

unfoldable pub mark_embed_available : Breaker → Breaker
unfolding put
mark_embed_available b = record b {
  embed_available = true;
  last_health = put b.last_health "embed" true;
}

unfoldable pub record_embed_failure : String → Breaker → Breaker
unfolding mark_embed_unavailable
record_embed_failure error b =
    let counted = record b {
      consecutive_embed_failures = b.consecutive_embed_failures + 1;
      last_embed_error = if error == "" then b.last_embed_error else some error;
    } in
    if leb embed_failure_threshold (b.consecutive_embed_failures + 1)
    then mark_embed_unavailable counted
    else counted

unfoldable pub record_embed_success : Breaker → Breaker
unfolding mark_embed_available
record_embed_success b =
    mark_embed_available (record b { consecutive_embed_failures = 0; last_embed_error = none })

unfoldable pub reset_embed_circuit : Breaker → Breaker
reset_embed_circuit b = record b {
  embed_available = true;
  consecutive_embed_failures = 0;
  last_embed_error = none;
}

pub data EmbedEvent : Type 0 where
  failed : String → EmbedEvent
  succeeded reset : EmbedEvent

unfoldable pub on_event : EmbedEvent → Breaker → Breaker
unfolding record_embed_failure record_embed_success reset_embed_circuit
on_event (failed error) b = record_embed_failure error b
on_event succeeded b = record_embed_success b
on_event reset b = reset_embed_circuit b

-- The latest event first.
unfoldable pub after_events : List EmbedEvent → Breaker → Breaker
unfolding on_event
after_events [] b = b
after_events (e ∷ events) b = on_event e (after_events events b)

-- How many failures there have been since the last success or reset.
abbrev pub latest_failures : List EmbedEvent → ℕ
latest_failures [] = 0
latest_failures (failed error ∷ events) = suc (latest_failures events)
latest_failures (succeeded ∷ events) = 0
latest_failures (reset ∷ events) = 0

abbrev pub new_breaker : Breaker
new_breaker = record {
  embed_available = true;
  consecutive_embed_failures = 0;
  last_embed_error = none;
  last_health = [];
}

record Counted (events : List EmbedEvent) (b : Breaker) : Type 0 where
  failures : b.consecutive_embed_failures ≡ latest_failures events
  available : b.embed_available ≡ ltb (latest_failures events) embed_failure_threshold

counts : (events : List EmbedEvent) → Counted events (after_events events new_breaker)
unfolding after_events on_event record_embed_failure record_embed_success reset_embed_circuit
    mark_embed_unavailable mark_embed_available
counts [] = record { failures = refl; available = refl }
counts (failed error ∷ events) =
    let c = counts events in
    record {
      failures = ground (arith, c.failures);
      available = ground (arith, c.failures, c.available);
    }
counts (succeeded ∷ events) = record { failures = refl; available = refl }
counts (reset ∷ events) = record { failures = refl; available = refl }

-- After any successes, failures and resets of a new queue the embedding is available exactly when
-- fewer than three failures have come since the last success or reset.
pub breaker_opens :
    (events : List EmbedEvent)
    → (after_events events new_breaker).embed_available ≡ ltb (latest_failures events) 3
breaker_opens events = (counts events).available
