-- ===== src/Pairing.antt =====
-- internal/pairing/service.go.
pub mod Payloads
pub mod Envelope
pub mod Invite
pub mod Guards
pub mod Writes
pub mod Operations
pub mod Guarded
pub mod Whitelist
pub mod Authentic
pub mod Activation
pub mod Accept
pub mod Confirm
pub mod Revoke
pub mod Cutoff
