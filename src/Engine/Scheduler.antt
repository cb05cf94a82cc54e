-- ===== src/Engine/Scheduler.antt =====
-- llm_serve/engine/scheduler.py: the continuous-batching scheduler. The children hold its state,
-- its methods in the order in which they call one another, and the proofs.
pub mod State
pub mod Queues
pub mod Invariant
pub mod Lifecycle
pub mod Preempts
pub mod Victims
pub mod Choice
pub mod Room
pub mod Finishes
pub mod Grows
pub mod Decodes
pub mod Joins
pub mod Resumes
pub mod Searches
pub mod Chunks
pub mod Admits
pub mod Prefills
pub mod Aborts
pub mod Early
pub mod Requests
pub mod Steps
pub mod Reach
pub mod Idle
pub mod Decode
pub mod Prefill
pub mod Step
