-- ===== src/Routing.antt =====
-- app/routing: quotas, deployments and the scheduler's decisions.
pub mod Limits
pub mod Deployments
pub mod Decide
pub mod Execute
pub mod Aliases
pub mod Capability
pub mod AgentAuto
pub mod Strategy
pub mod Router
