-- ===== src/Instance.antt =====
-- temporalio/worker/_workflow_instance.py: one workflow run, driven by activations.
pub mod Exn
pub mod State
pub mod Core
pub mod Timers
pub mod Futures
pub mod Activities
pub mod Await
pub mod Resolve
pub mod Patch
pub mod Handlers
pub mod Loop
pub mod Failure
pub mod Update
pub mod Query
pub mod Completion
pub mod Activate
mod Tests
