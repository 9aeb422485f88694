-- ===== src/Spec.antt =====
-- src/opencollate/sequential_spec.py: the requests for property checks.
pub mod Json
pub mod Names
pub mod Request
pub mod Reading
pub mod Depth
pub mod Normalize
pub mod Bounds
pub mod Holds
pub mod Returns
mod Tests
