-- ===== src/Esign.antt =====
-- sign/esign.py: the operations of the signature engine.
pub mod Draft
pub mod Send
pub mod Remind
pub mod View
pub mod Submit
pub mod Consent
pub mod Decline
pub mod Download
pub mod Sweep
pub mod Access
pub mod Owner
pub mod Pages
pub mod Seal
pub mod Finalize
pub mod Quiet
pub mod Invariant
pub mod Reach
