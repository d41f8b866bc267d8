-- ===== src/LlmQueue.antt =====
-- The queue of the requests to the language model (backend/ollama_queue.py).
pub mod Requests
pub mod Breaker
pub mod Order
pub mod Draining
pub mod Accounting
mod Examples
