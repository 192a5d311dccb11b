-- ===== src/Relay/Client/Answers.antt =====
-- The loop over a connection: it ends, and it answers every frame once, in order.
use mathlib.Core.List.{flatten, map}
use shell_watch.Base.{
  ℕ, zero, suc, ◌≤◌, ◌<◌, ◌≡◌, refl, sym, ◌∙◌, true, false, some, List, [], ◌∷◌, ◌++◌, append_assoc,
  append-nil, length, arith, if◌then◌else◌, Bool-cases, inl, inr, nat_eq,
}
use shell_watch.Relay.Wire.{encode}
use shell_watch.Relay.Client.{
  frame, max_payload, read_frame, is_extension, agent_failure_response, answered, Outside, Relay,
  new_relay, at_eof, continue, reply, forward, on_frame, handle_connection,
}
use shell_watch.Relay.Client.Frames.{read_frame-encode}

-- An outside that fails in nothing.
pub record Works (o : Outside) (answer : List (List ℕ) → List ℕ → List ℕ) : Type 0 where
  pub connects : o.dials ≡ true
  pub answers : (sent : List (List ℕ)) (f : List ℕ) → o.exchange sent f ≡ answered (answer sent f)
  pub takes : (n : ℕ) → o.takes n ≡ true

-- What the frames amount to: those for the server, and the replies, in order.
abbrev pub requests : List (List ℕ) → List (List ℕ)
requests [] = []
requests (f ∷ fs) = if is_extension f then requests fs else f ∷ requests fs

abbrev pub expected :
    (List (List ℕ) → List ℕ → List ℕ) → List (List ℕ) → List (List ℕ) → List (List ℕ)
expected answer sent [] = []
expected answer sent (f ∷ fs) =
    if is_extension f
    then agent_failure_response ∷ expected answer sent fs
    else answer sent f ∷ expected answer (sent ++ f ∷ []) fs

abbrev pub AreSmall : List (List ℕ) → Type 0
AreSmall [] = Unit
AreSmall (p ∷ ps) = (length p ≤ max_payload) × AreSmall ps

read_frame_small :
    (p rest : List ℕ)
    → length p ≤ max_payload
    → read_frame (encode p ++ rest) ≡ frame (encode p) rest
read_frame_small p rest h = ground (arith, read_frame-encode p rest)

module _ (o : Outside) (answer : List (List ℕ) → List ℕ → List ℕ) (w : Works o answer) where
  on_extension :
      (r : Relay) (f : List ℕ)
      → is_extension f ≡ true
      → on_frame o r f ≡ continue (record r { replies = r.replies ++ agent_failure_response ∷ [] })
  unfolding on_frame reply
  on_extension r f e = rw (e, w.takes (length r.replies)) refl

  forward_works :
      (r : Relay) (f : List ℕ)
      → forward o r f
        ≡ continue (record r {
          forwarded = r.forwarded ++ f ∷ [];
          replies = r.replies ++ answer r.forwarded f ∷ [];
        })
  unfolding forward reply
  forward_works r f = rw (w.answers r.forwarded f, forward) (rw (w.takes (length r.replies)) refl)

  on_request :
      (r : Relay) (f : List ℕ)
      → is_extension f ≡ false
      → on_frame o r f
        ≡ continue (record {
          connected = true;
          forwarded = r.forwarded ++ f ∷ [];
          replies = r.replies ++ answer r.forwarded f ∷ [];
        })
  unfolding on_frame
  on_request r f e =
      ground (arith, w.connects, forward_works r f, forward_works (record r { connected = true }) f)

handle_step :
    (o : Outside) (k : ℕ) (input b rest : List ℕ) (r r' : Relay)
    → read_frame input ≡ frame b rest
    → on_frame o r b ≡ continue r'
    → handle_connection o (suc k) input r ≡ handle_connection o k rest r'
unfolding handle_connection
handle_step o k input b rest r r' e g = rw (e, g, handle_connection)

handle_eof : (o : Outside) (k : ℕ) (r : Relay) → handle_connection o (suc k) [] r ≡ (r, some at_eof)
unfolding handle_connection read_frame nat_eq
handle_eof o k r = refl

module _ (o : Outside) (answer : List (List ℕ) → List ℕ → List ℕ) (w : Works o answer) where
  handle_frames :
      (k : ℕ) (ps : List (List ℕ)) (r : Relay)
      → AreSmall ps
      → length ps < k
      → ((handle_connection o k (flatten (map encode ps)) r).1 ≡ some at_eof)
        × ((handle_connection o k (flatten (map encode ps)) r).0.forwarded
            ≡ r.forwarded ++ requests (map encode ps))
        × ((handle_connection o k (flatten (map encode ps)) r).0.replies
            ≡ r.replies ++ expected answer r.forwarded (map encode ps))
  unfolding flatten
  handle_frames zero ps r s h = absurd (omega arith)
  handle_frames (suc k) [] r s h =
      rw (handle_eof o k r) (refl, sym (append-nil r.forwarded), sym (append-nil r.replies))
  handle_frames (suc k) (p ∷ ps) r s h = elim (Bool-cases (is_extension (encode p))) [
    | inl e ↦
        let r' : Relay = record r { replies = r.replies ++ agent_failure_response ∷ [] } in
        let v = handle_frames k ps r' s.1 (omega arith) in
        rw
          (
            handle_step o k (encode p ++ flatten (map encode ps)) (encode p)
                (flatten (map encode ps)) r r' (read_frame_small p (flatten (map encode ps)) s.0)
                (on_extension o answer w r (encode p) e),
            e,
          )
          (v.0, v.1, v.2 ∙ append_assoc r.replies (agent_failure_response ∷ []) _)
    | inr e ↦
        let r' : Relay = record {
          connected = true;
          forwarded = r.forwarded ++ encode p ∷ [];
          replies = r.replies ++ answer r.forwarded (encode p) ∷ [];
        } in
        let v = handle_frames k ps r' s.1 (omega arith) in
        rw
          (
            handle_step o k (encode p ++ flatten (map encode ps)) (encode p)
                (flatten (map encode ps)) r r' (read_frame_small p (flatten (map encode ps)) s.0)
                (on_request o answer w r (encode p) e),
            e,
          )
          (
            v.0,
            v.1 ∙ append_assoc r.forwarded (encode p ∷ []) _,
            v.2 ∙ append_assoc r.replies (answer r.forwarded (encode p) ∷ []) _,
          )
  ]

-- If the dial, the server and the local socket fail in nothing, a program that sends frames of at
-- most 256 KB each and closes its side has each of them answered once, in order: an extension by a
-- failure made here, any other by the server's answer. The server is sent the others only, in
-- order, and the loop ends at the end of the input.
pub handle_connection-encode :
    (o : Outside) (answer : List (List ℕ) → List ℕ → List ℕ) (ps : List (List ℕ)) (k : ℕ)
    → Works o answer
    → AreSmall ps
    → length ps < k
    → ((handle_connection o k (flatten (map encode ps)) new_relay).1 ≡ some at_eof)
      × ((handle_connection o k (flatten (map encode ps)) new_relay).0.forwarded
          ≡ requests (map encode ps))
      × ((handle_connection o k (flatten (map encode ps)) new_relay).0.replies
          ≡ expected answer [] (map encode ps))
handle_connection-encode o answer ps k w s h = handle_frames o answer w k ps new_relay s h
