-- ===== src/Certificate.antt =====
-- src/opencollate/sequential_certificate.py: the checking of certificates.
pub mod Errors
pub mod Cover
pub mod Execution
pub mod Verify
pub mod Producer
pub mod Certified
mod Tests
