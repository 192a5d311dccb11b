-- ===== src/Relay.antt =====
-- The SSH agent relay between a local socket and the server: the frames of the agent protocol, the
-- server's end (internal/agentproxy/framing.go) and the agent client's (agent-client/internal/proxy).
pub mod Wire
pub mod Framing
pub mod Client
pub mod Dial
pub mod Examples
