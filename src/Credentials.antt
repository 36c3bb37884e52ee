-- ===== src/Credentials.antt =====
-- app/credentials and app/models/credential.py: the key pool.
pub mod Cooldown
pub mod Runtime
pub mod Config
pub mod Health
pub mod Affinity
pub mod Pool
pub mod Rotation
