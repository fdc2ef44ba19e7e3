-- ===== src/Biometric.antt =====
-- The fingerprint readers and the kiosks (biometric/).
pub mod Auth
pub mod Enroll
pub mod Listener
pub mod Service
