-- ===== src/Kiosk.antt =====
-- The kiosk's own program (kiosk_agent.py), and what it and the site tell each other.
pub mod Base64
pub mod Codec
pub mod Scan
pub mod Agent
pub mod Cache
pub mod Queue
pub mod Local
mod Examples
