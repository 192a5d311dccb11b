-- ===== src/Relay/Framing/Whole.antt =====
-- The messages that go out are the frames of the stream.
use mathlib.Core.List.{flatten, map}
use shell_watch.Base.{
  ℕ, zero, suc, ◌+◌, ◌≤◌, ◌<◌, ◌≡◌, refl, ap, ◌∙◌, Bool, true, some, List, [], ◌∷◌, ◌++◌,
  append_assoc, append-nil, length, length-append, arith,
}
use shell_watch.Relay.Wire.{
  two_32, be32, encode, be32-encode, length-encode, take-encode, drop-encode,
}
use shell_watch.Relay.Framing.{Writer, new_writer, first_frame, flush, write, write_all}
use shell_watch.Relay.Framing.Flush.{first_frame_whole, first_frame_short, flush_done, flush_sent}
use shell_watch.Relay.Framing.Chunks.{write_all-flatten}

first_frame-encode :
    (p rest : List ℕ)
    → length (encode p ++ rest) < two_32
    → first_frame (encode p ++ rest) ≡ some (encode p, rest)
first_frame-encode p rest h =
    let size : length (encode p ++ rest) ≡ length p + 4 + length rest =
      omega (arith, length-append (encode p) rest, length-encode p) in
    let n : be32 (encode p ++ rest) ≡ length p = be32-encode p rest (omega arith) in
    first_frame_whole (encode p ++ rest) (omega arith) (omega arith) h
    ∙ rw (n, take-encode, drop-encode) refl

flush_frames :
    (accepts : ℕ → Bool) (f : ℕ) (ps sent : List (List ℕ))
    → ((n : ℕ) → accepts n ≡ true)
    → length (flatten (map encode ps)) < two_32
    → length (flatten (map encode ps)) ≤ f
    → flush accepts f (record { write_buf = flatten (map encode ps); sent = sent })
      ≡ (record { write_buf = []; sent = sent ++ map encode ps }, true)
unfolding flatten
flush_frames accepts f [] sent all h k =
    flush_done accepts f _ (first_frame_short [] (omega arith)) ∙ rw append-nil refl
flush_frames accepts zero (p ∷ ps) sent all h k =
    absurd (omega (arith, length-append (encode p) (flatten (map encode ps)), length-encode p))
flush_frames accepts (suc f) (p ∷ ps) sent all h k =
    let size : length (encode p ++ flatten (map encode ps))
        ≡ length p + 4 + length (flatten (map encode ps)) =
      omega (arith, length-append (encode p) (flatten (map encode ps)), length-encode p) in
    flush_sent accepts f _ (encode p) (flatten (map encode ps))
      (first_frame-encode p (flatten (map encode ps)) h) (all (length sent))
    ∙ flush_frames accepts f ps (sent ++ encode p ∷ []) all (omega arith) (omega arith)
    ∙ rw append_assoc refl

-- If the bytes that the SSH agent server writes, cut in any way, are a sequence of frames with fewer
-- than 2 ^ 32 bytes in all, and the connection accepts every message, then each frame goes out as
-- one message, in order, and no write fails.
pub write_all-encode :
    (accepts : ℕ → Bool) (chunks ps : List (List ℕ))
    → ((n : ℕ) → accepts n ≡ true)
    → flatten chunks ≡ flatten (map encode ps)
    → length (flatten chunks) < two_32
    → ((write_all accepts new_writer chunks).0.sent ≡ map encode ps)
      × ((write_all accepts new_writer chunks).1 ≡ true)
unfolding write
write_all-encode accepts chunks ps all e h =
    let v = write_all-flatten accepts chunks h in
    let w : write accepts new_writer (flatten chunks)
        ≡ (record { write_buf = []; sent = map encode ps }, true) =
      rw e (
        flush_frames accepts (length (flatten (map encode ps))) ps [] all (rw e at h)
          (omega arith)) in
    (v.0 ∙ ap (λ (r : Writer × Bool). r.0.sent) w, v.1 ∙ ap (λ (r : Writer × Bool). r.1) w)
