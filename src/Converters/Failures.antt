-- ===== src/Converters/Failures.antt =====
-- temporalio/converter/_failure_converter.py: exceptions to failures of the API, and back.
pub mod Base
pub mod Encode
pub mod Decode
pub mod Roundtrip
pub mod Relay
