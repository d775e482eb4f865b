-- ===== src/Processor.antt =====
-- doover/src/processor: the tags of one invocation, its event, and the run of its phases.
pub mod Tags
pub mod Handler
pub mod Payloads
pub mod Invocation
pub mod Setup
pub mod Runner
pub mod Summary
pub mod Context
pub mod Pipeline
