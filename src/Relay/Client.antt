-- ===== src/Relay/Client.antt =====
-- agent-client/internal/proxy/proxy.go, `readFrame` and `handleConnection`: the agent client's loop
-- over one connection of an SSH program. The bytes that the program sends before it closes its
-- side are a list. The server beyond the WebSocket, the dial and the local writes are arguments.
pub mod Frames
pub mod Answers
pub mod Ends
use shell_watch.Base.{
  ℕ, zero, suc, ◌+◌, Bool, true, false, Option, none, some, List, [], ◌∷◌, ◌++◌, ltb, leb, ◌==◌,
  if◌then◌else◌, length, take, drop, nat_eq,
}
use shell_watch.Relay.Wire.{be32}

abbrev pub ssh_agentc_extension : ℕ
ssh_agentc_extension = 27

abbrev pub agent_failure_response : List ℕ
agent_failure_response = 0 ∷ 0 ∷ 0 ∷ 1 ∷ 5 ∷ []

-- 256 KB.
abbrev pub max_payload : ℕ
max_payload = 262144

-- `eof` is `io.EOF`, `unexpected_eof` is `io.ErrUnexpectedEOF`.
pub data ReadFrame : Type 0 where
  frame : List ℕ → List ℕ → ReadFrame
  eof : ReadFrame
  unexpected_eof : ReadFrame
  too_large : ℕ → ReadFrame

-- The second `io.ReadFull`: `n` bytes into `frame[4:]`.
unfoldable pub read_payload : List ℕ → ℕ → List ℕ → ReadFrame
read_payload len_buf n input =
    if leb n (length input)
    then frame (len_buf ++ take n input) (drop n input)
    else if length input == 0
    then eof
    else unexpected_eof

-- With a frame comes what is left of the input.
unfoldable pub read_frame : List ℕ → ReadFrame
unfolding read_payload
read_frame input =
    if length input == 0
    then eof
    else if ltb (length input) 4
    then unexpected_eof
    else if ltb max_payload (be32 (take 4 input))
    then too_large (be32 (take 4 input))
    else read_payload (take 4 input) (be32 (take 4 input)) (drop 4 input)

-- `len(frame) >= 5 && frame[4] == sshAgentcExtension`
unfoldable pub is_extension : List ℕ → Bool
is_extension (a ∷ b ∷ c ∷ d ∷ t ∷ _) = t == ssh_agentc_extension
is_extension _ = false

-- One round over the WebSocket: `WriteMessage`, then `ReadMessage`. A server that answers pings but
-- sends no message extends the read deadline for ever: `unanswered`.
pub data Exchange : Type 0 where
  answered : List ℕ → Exchange
  write_failed : Exchange
  read_failed : Exchange
  not_binary : Exchange
  unanswered : Exchange

-- The outside of one connection: whether the dial succeeds, what the server does with a frame after
-- the frames that it was sent, and whether the local socket takes a write after so many.
pub record Outside : Type 0 where
  pub dials : Bool
  pub exchange : List (List ℕ) → List ℕ → Exchange
  pub takes : ℕ → Bool

pub record Relay : Type 0 where
  pub connected : Bool
  pub forwarded : List (List ℕ)
  pub replies : List (List ℕ)

abbrev pub new_relay : Relay
new_relay = record { connected = false; forwarded = []; replies = [] }

-- Why the loop returned, or `blocked`: it did not, and waits in `ReadMessage` for ever.
pub data End : Type 0 where
  at_eof : End
  read_error : End
  connect_error : End
  ws_error : End
  socket_error : End
  blocked : End

-- What one frame does to the connection.
pub data Step : Type 0 where
  continue : Relay → Step
  stop : Relay → End → Step

-- `conn.Write`
unfoldable pub reply : Outside → Relay → List ℕ → Step
reply o r bytes =
    if o.takes (length r.replies)
    then continue (record r { replies = r.replies ++ bytes ∷ [] })
    else stop r socket_error

unfoldable pub forward : Outside → Relay → List ℕ → Step
unfolding reply
forward o r bytes = elim (o.exchange r.forwarded bytes) [
  | answered response ↦ reply o (record r { forwarded = r.forwarded ++ bytes ∷ [] }) response
  | write_failed ↦ stop r ws_error
  | read_failed ↦ stop (record r { forwarded = r.forwarded ++ bytes ∷ [] }) ws_error
  | not_binary ↦ stop (record r { forwarded = r.forwarded ++ bytes ∷ [] }) ws_error
  | unanswered ↦ stop (record r { forwarded = r.forwarded ++ bytes ∷ [] }) blocked
]

unfoldable pub on_frame : Outside → Relay → List ℕ → Step
unfolding reply forward is_extension
on_frame o r bytes =
    if is_extension bytes
    then reply o r agent_failure_response
    else if r.connected
    then forward o r bytes
    else if o.dials
    then forward o (record r { connected = true }) bytes
    else stop r connect_error

-- The loop; `none` would be a loop that has not returned within its fuel.
unfoldable pub handle_connection : Outside → ℕ → List ℕ → Relay → Relay × Option End
handle_connection o zero input r = (r, none)
handle_connection o (suc f) input r = elim (read_frame input) [
  | eof ↦ (r, some at_eof)
  | unexpected_eof ↦ (r, some read_error)
  | too_large _ ↦ (r, some read_error)
  | frame bytes rest ↦ elim (on_frame o r bytes) [
    | continue r' ↦ handle_connection o f rest r'
    | stop r' e ↦ (r', some e)
  ]
]
