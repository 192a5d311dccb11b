-- ===== src/Webauthn.antt =====
-- internal/webauthn: the single-use secrets of the passkey ceremonies. The ceremonies themselves run
-- in a WebAuthn library and are not here.
pub mod Challenge
pub mod StepUp
pub mod Invite
pub mod Examples
