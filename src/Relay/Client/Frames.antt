-- ===== src/Relay/Client/Frames.antt =====
-- What the client reads of a stream of frames.
use shell_watch.Base.{
  ℕ, ◌+◌, ◌≤◌, ◌<◌, ◌≡◌, refl, ◌∙◌, true, List, ◌++◌, length, take, drop, length-append, arith, ltb,
  leb, if◌then◌else◌,
}
use shell_watch.Relay.Wire.{
  two_32, be32, be32-take, encode, be32-encode, length-encode, take-length, drop-length,
}
use shell_watch.Relay.Client.{frame, too_large, max_payload, read_payload, read_frame}

head_encode : (p rest : List ℕ) → take 4 (encode p ++ rest) ++ p ≡ encode p
unfolding encode
head_encode p rest = refl

tail_encode : (p rest : List ℕ) → drop 4 (encode p ++ rest) ≡ p ++ rest
unfolding encode
tail_encode p rest = refl

read_frame_head :
    (input : List ℕ) (n : ℕ)
    → 4 ≤ length input
    → be32 (take 4 input) ≡ n
    → read_frame input
      ≡ (if ltb max_payload n then too_large n else read_payload (take 4 input) n (drop 4 input))
unfolding read_frame
read_frame_head input n h e = ground arith

read_payload-append :
    (b p rest : List ℕ) → read_payload b (length p) (p ++ rest) ≡ frame (b ++ p) rest
unfolding read_payload
read_payload-append b p rest =
    let size : length (p ++ rest) ≡ length p + length rest = length-append p rest in
    rw (fits, take-length, drop-length) refl
  where
    fits : leb (length p) (length (p ++ rest)) ≡ true
    fits = ground (arith, length-append p rest)

-- A frame of at most 256 KB that stands at the head of the input is read whole, and what follows it
-- is left; a longer one is refused with its length.
pub read_frame-encode :
    (p rest : List ℕ)
    → length p < two_32
    → read_frame (encode p ++ rest)
      ≡ (if ltb max_payload (length p) then too_large (length p) else frame (encode p) rest)
unfolding read_frame
read_frame-encode p rest h =
    let size : length (encode p ++ rest) ≡ length p + 4 + length rest =
      omega (arith, length-append (encode p) rest, length-encode p) in
    let n : be32 (take 4 (encode p ++ rest)) ≡ length p =
      be32-take (encode p ++ rest) ∙ be32-encode p rest h in
    read_frame_head (encode p ++ rest) (length p) (omega arith) n
    ∙ rw (tail_encode, read_payload-append, head_encode) refl
