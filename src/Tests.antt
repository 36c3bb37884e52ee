-- ===== src/Tests.antt =====
-- The properties at concrete inputs, and runs of the definitions.
mod Data
mod Retry
mod Keys
mod Pool
mod Routing
mod Execute
mod Plans
