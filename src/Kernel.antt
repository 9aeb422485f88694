-- ===== src/Kernel.antt =====
-- src/opencollate/proof_kernel.py: the checker for reverse-unit-propagation (RUP) refutations.
pub mod Meter
pub mod Clause
pub mod Database
pub mod Propagation
pub mod Verify
pub mod Meaning
pub mod Nonzero
pub mod Soundness
mod Tests
