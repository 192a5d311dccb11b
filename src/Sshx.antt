-- ===== src/Sshx.antt =====
-- internal/sshx and the pin columns of internal/store: trust in a server's host key.
pub mod Pins
pub mod HostKey
pub mod Examples
