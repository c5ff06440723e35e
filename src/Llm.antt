-- ===== src/Llm.antt =====
-- internal/llm: the orchestrator of the model calls, of which the circuit breaker and the registry
-- of pending calls are modelled.
pub mod Health
pub mod Pending
