-- ===== src/Converters.antt =====
-- The converters of temporalio/converter, and the exceptions of temporalio/exceptions.py.
pub mod Errors
pub mod Failures
pub mod Payloads
pub mod Storage
mod Tests
