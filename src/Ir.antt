-- ===== src/Ir.antt =====
-- src/opencollate/sequential_ir.py: the transition IR and its integer interpreter.
pub mod Circuit
pub mod Values
pub mod Builder
pub mod Evaluate
pub mod Finalize
pub mod Cone
pub mod Simulate
mod Tests
