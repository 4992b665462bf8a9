-- ===== src/Envelope.antt =====
-- sign/esign_access.py: the sessions of a signer on an envelope (Session), and the codes that are
-- mailed to prove an identity (Otp).
pub mod Session
pub mod Otp
