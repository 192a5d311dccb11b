-- ===== src/Lib.antt =====
-- ShellWatch: the state that stands between a remote client, a human who approves, and a shell.
--
-- ShellWatch is a Go server. A client (the web interface, an MCP agent or an SSH agent proxy) opens SSH
-- sessions; every use of a key waits for a human who signs in a browser. The parts modelled here are
-- those that decide: which requests pass, which secrets count, which answer an approval gets, which
-- host key is trusted, and what a session's readers see. Paths are from the repository's root.
--
-- The parts, and the files that model them:
--
-- Ephemeral: the TTL store of internal/ephemeral/store.go. `put_ttl`, `get`, `consume`, `delete` and
-- `sweep` are PutTTL, Get, Consume, Delete and Sweep on the record `Store`, generic in key and value.
-- Invariant, Live and Runs have its invariant, what a reader sees and its histories; Ideal has its
-- specification, a map without clean-up; SingleUse counts consumptions.
--
-- Webauthn: internal/webauthn. Challenge (challenge.go) and StepUp (stepup.go) stand on Ephemeral;
-- Invite (invite.go) has a map of its own. StepUp/Gate is about RequireStepUp.
--
-- Approval: internal/approval. Store is the pending-action store (store.go): `take_pending` is
-- takePending, on which ResolveSign, ResolveKey and Deny stand, `sweep` and `cancel_for_connection`
-- are Sweep and CancelForConnection. Broker (broker.go) opens a request there and waits; what
-- arrives on its channels are the effects of the store's calls.
--
-- Terminal: internal/terminal. Buffer is the output ring (buffer.go). Manager is the registry of
-- sessions (manager.go): each section of code under the manager's mutex is one function, Steps has
-- the sequences of sections, which are the interleavings of the goroutines, Delivery has the calls of
-- a subscriber, which come after the sections, and Closing composes Close, the pump and the end of
-- Create from the sections.
--
-- Sshx: host keys. HostKey is internal/sshx/hostkey.go with the two functions of webauthn_signer.go
-- that ask for a pin and write it, and the check of Connect in transport.go; Pins is the table
-- that holds the pins (internal/store/endpoints.go and queries/endpoints.sql).
--
-- Ratelimit: internal/ratelimit/ratelimit.go. Auth: internal/auth/gate.go and principal.go; Paths has
-- the surfaces and the open paths, written out.
--
-- Agent: internal/agent/session.go, the cap of CreateSession over the manager's register. The count and
-- the registration are two sections, each with a manager of its own.
--
-- Ws: internal/ws. Ws is one browser connection (conn.go), Router what its client's messages do
-- (router.go), Hub the manager's notifications (hub.go); Lives puts them in any order. The data of an
-- output frame is the text that is given to the JSON encoder.
--
-- Relay: the SSH agent relay. Framing is the server's end (internal/agentproxy/framing.go), Client and
-- Dial are the agent client's (agent-client/internal/proxy/proxy.go), Wire is the frame of both.
--
-- Audit: the logs (internal/audit and internal/notify). Readers has the four List methods over the
-- query and the pages of Audit; Writer is the subscriber that logs sessions (writer.go).
--
-- LastUsed: the flusher of internal/store/lastused.go.
--
-- Realip: the address of the client behind proxies (internal/realip/realip.go) and the allowlist of
-- /mcp (internal/auth/ipallowlist.go). Go's net package is the record Net of operations, a parameter.
--
-- Base: what all of them share. It models no code.
--
-- How state and operations correspond: a struct is a record, its mutex makes each method a function
-- from the old state to the new one and a result; the clock's reading is an argument. A Go map is an
-- association list (Base/Maps), so a walk of a map has the list's order, which is any order. Events
-- and callbacks are lists of effects in the order in which the code makes them. A pointer that outlives
-- its registry entry, as a session's does, is a heap of objects beside the list of the registered ids.
--
-- Bounds: times, counts and offsets are natural numbers, without a largest one. Where a client sends
-- the number, in the reads of the output ring, the `int64` arithmetic wraps as Go's does, and
-- so does the `uint32` arithmetic on the length of a frame. Most loops are recursion on a list. Three
-- take fuel: the loop of `Write` (the length of its buffer, since each round takes a frame of four
-- bytes or more), the loop over a connection (one more than the length of its input), and the dial
-- (seven, since the waits of seven rounds exceed the budget).
--
-- Not modelled: what is not in the repository (the SSH, WebAuthn and WebSocket libraries, the
-- OAuth server, the database engine) is a parameter or left out; HTTP, JSON and text formatting;
-- the transports and their goroutines below the sections; how one subscribes to the manager; of the
-- browser connections, the registry of the hub and the upgrade; of the relay, the listener, the
-- keepalive and the server's reads; the endpoint calls and the long poll of an agent session; the
-- services under internal/ that only store or forward (push, seed, config); the
-- rest of the agent client, and the web client.
pub mod Base
pub mod Ephemeral
pub mod Terminal
pub mod Approval
pub mod Webauthn
pub mod Sshx
pub mod Ratelimit
pub mod Auth
pub mod Agent
pub mod Ws
pub mod Relay
pub mod Audit
pub mod LastUsed
pub mod Realip
