-- ===== src/Tenancy.antt =====
-- app/domain/tenancy: the plans with their limits, and the organization that is on one.
pub mod Plans
pub mod Organization
pub mod Limits
mod Examples
