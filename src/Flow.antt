-- ===== src/Flow.antt =====
-- packages/harness-core/src/flow-graph.ts: flows compiled to a graph of executors and routers.
pub mod Values
pub mod Expressions
pub mod State
pub mod Edges
pub mod Router
pub mod Gate
pub mod Rewrite
pub mod Loop
pub mod Interrupts
pub mod Compile
pub mod Samples
mod Tests
mod GraphTests
