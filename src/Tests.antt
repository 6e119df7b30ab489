-- ===== src/Tests.antt =====
-- An API server in memory, and the theorems at concrete inputs.
pub mod Memory
pub mod Data
mod Examples
mod Evaluated
mod Rollouts
mod HeapLibrary
mod Heaps
mod OrderExamples
mod AmongExamples
mod ConcurrentExamples
mod ProcessExamples
mod StepExamples
mod PartExamples
mod TextExamples
