-- ===== src/Terminal/Buffer/Examples.antt =====
-- Tests of the output ring, and instances of its theorems.
use mathlib.Core.List.{flatten}
use shell_watch.Base.{ℕ, ◌≡◌, refl, true, none, some, List, [], ◌∷◌, arith, nat_eq, pos, negsuc}
use shell_watch.Terminal.Buffer.{
  OutputBuffer, new_output_buffer, append, read, read_at, rel_start, slice, tail,
}
use shell_watch.Terminal.Buffer.Stream.{Holds, append_all, append_all-new}
use shell_watch.Terminal.Buffer.Reads.{read-Holds, read_panics}

abbrev stream : List ℕ
stream = 10 ∷ 11 ∷ 12 ∷ 27 ∷ 14 ∷ 15 ∷ []

abbrev ring : OutputBuffer
ring = record { buf = 12 ∷ 27 ∷ 14 ∷ 15 ∷ []; base_offset = 2; max_size = 4 }

ring_appended : append (append (new_output_buffer 4) (10 ∷ 11 ∷ 12 ∷ [])) (27 ∷ 14 ∷ 15 ∷ []) ≡ ring
unfolding append new_output_buffer nat_eq
ring_appended = refl

ring-Holds : Holds ring stream
ring-Holds = record { window = refl; total = refl; bounded = omega arith }

append_all-new_example :
    Holds (append_all (new_output_buffer 4) (stream ∷ stream ∷ [])) (flatten (stream ∷ stream ∷ []))
append_all-new_example = append_all-new 4 (stream ∷ stream ∷ [])

read_middle :
    read ring (pos 3) (pos 2) ≡ some (record { bytes = 27 ∷ 14 ∷ []; offset = 5; has_more = true })
unfolding read read_at rel_start slice nat_eq
read_middle = refl

read-Holds_example :
    read ring (negsuc 0) (pos 2)
    ≡ some (record { bytes = 12 ∷ 27 ∷ []; offset = 4; has_more = true })
unfolding nat_eq
read-Holds_example =
    read-Holds ring stream (negsuc 0) (pos 2) ring-Holds (omega arith) (omega arith)
      (unfold nat_eq in omega arith)

-- The largest `int` as the limit of a read.
read_panics_example : read ring (pos 3) (pos 9223372036854775807) ≡ none
unfolding rel_start nat_eq
read_panics_example = read_panics ring (pos 3) (pos 9223372036854775807) (omega arith) (omega arith)

tail_at_escape : tail ring 3 ≡ 27 ∷ 14 ∷ 15 ∷ []
unfolding tail nat_eq
tail_at_escape = refl
