-- ===== src/Workflow.antt =====
-- app/domain/workflow and app/domain/workflow_instances: the graph of steps that an organization
-- designs, the checks before its activation, and a contract's run through it.
pub mod Definition
pub mod Validation
pub mod Invariant
pub mod Lifecycle
pub mod Instance
pub mod Presets
mod Examples
