-- ===== src/Streams.antt =====
-- Workflow Streams, temporalio/contrib/workflow_streams: an append-only log in a workflow, with
-- publishers and subscribers outside of it.
pub mod Types
pub mod Stream
pub mod Client
pub mod Subscribe
mod Tests
