-- ===== src/Relay/Framing.antt =====
-- internal/agentproxy/framing.go: the adapter between the stream that the SSH agent server writes
-- and WebSocket messages. The connection is an argument of `write`: `accepts n` says whether it
-- takes a message after `n` were sent. Lengths are `int`, the length field is `uint32`, and the
-- arithmetic on it wraps as Go's does.
mod Flush
pub mod Chunks
pub mod Whole
use shell_watch.Base.{
  ℕ, zero, suc, ◌+◌, ◌-◌, ◌%◌, ◌≤◌, ◌<◌, ◌≡◌, Bool, true, false, Option, none, some, List, [], ◌∷◌,
  ◌++◌, ltb, if◌then◌else◌, length, take, drop, arith,
}
use shell_watch.Relay.Wire.{two_32, be32}

-- What `Write` keeps, with the messages that went out.
pub record Writer : Type 0 where
  pub write_buf : List ℕ
  pub sent : List (List ℕ)

abbrev pub new_writer : Writer
new_writer = record { write_buf = []; sent = [] }

-- The first frame of the buffer and what follows it, if the frame is there whole.
unfoldable pub first_frame : List ℕ → Option (List ℕ × List ℕ)
first_frame buf =
    if ltb (length buf) 4
    then none
    else if ltb ((length buf - 4) % two_32) (be32 (take 4 buf))
    then none
    else some
        (take ((4 + be32 (take 4 buf)) % two_32) buf, drop ((4 + be32 (take 4 buf)) % two_32) buf)

-- The loop of `Write`; `false` is the error of the connection. Fuel bounds the rounds.
unfoldable pub flush : (ℕ → Bool) → ℕ → Writer → Writer × Bool
flush accepts zero c = (c, true)
flush accepts (suc f) c = elim (first_frame c.write_buf) [
  | none ↦ (c, true)
  | some (frame, rest) ↦ elim (accepts (length c.sent)) [
    | true ↦ flush accepts f (record { write_buf = rest; sent = c.sent ++ frame ∷ [] })
    | false ↦ (c, false)
  ]
]

unfoldable pub write : (ℕ → Bool) → Writer → List ℕ → Writer × Bool
write accepts c p =
    flush accepts (length (c.write_buf ++ p)) (record c { write_buf = c.write_buf ++ p })

-- Several writes, up to the first that fails.
unfoldable pub write_all : (ℕ → Bool) → Writer → List (List ℕ) → Writer × Bool
write_all accepts c [] = (c, true)
write_all accepts c (p ∷ ps) =
    let w = write accepts c p in elim w.1 [ true ↦ write_all accepts w.0 ps | false ↦ (w.0, false) ]
