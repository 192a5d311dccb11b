-- ===== src/Terminal/Buffer/Stream.antt =====
-- The ring against the whole stream of bytes that was ever appended.
use mathlib.Core.List.{flatten}
use shell_watch.Base.{
  ℕ, ◌+◌, ◌-◌, ◌≤◌, ◌<◌, ◌≡◌, refl, sym, ap, ◌∙◌, List, [], ◌∷◌, ◌++◌, append_assoc, append-nil,
  arith, ltb, if◌then◌else◌, length, drop, length-append, length-drop, drop-append, drop-drop,
  nat_eq, ℤ, pos, negsuc, pos_part, neg_part, ◌-ℤ◌, IsInt64, int64_exact, two_63, Bool-cases, inl,
  inr,
}
use shell_watch.Terminal.Buffer.{OutputBuffer, new_output_buffer, append, rel_start}

-- `b` holds the end of the stream `s`, from its base offset on, within its size.
pub record Holds (b : OutputBuffer) (s : List ℕ) : Type 0 where
  pub window : b.buf ≡ drop b.base_offset s
  pub total : b.base_offset + length b.buf ≡ length s
  pub bounded : length b.buf ≤ b.max_size

pub append-Holds :
    (b : OutputBuffer) (s bytes : List ℕ) → Holds b s → Holds (append b bytes) (s ++ bytes)
unfolding append
append-Holds b s bytes h =
    let whole : b.buf ++ bytes ≡ drop b.base_offset (s ++ bytes) =
      rw h.window (sym (drop-append b.base_offset s bytes (omega (arith, h.total)))) in
    elim (Bool-cases (ltb b.max_size (length (b.buf ++ bytes)))) [
      | inl over ↦ rw over (record {
        window =
            ap (drop (length (b.buf ++ bytes) - b.max_size)) whole
            ∙ drop-drop (length (b.buf ++ bytes) - b.max_size) b.base_offset (s ++ bytes);
        total = ground (
          arith,
          h.total,
          length-append b.buf bytes,
          length-append s bytes,
          length-drop (length (b.buf ++ bytes) - b.max_size) (b.buf ++ bytes),
        );
        bounded =
            ground (arith, length-drop (length (b.buf ++ bytes) - b.max_size) (b.buf ++ bytes));
      })
      | inr fits ↦ rw fits (record {
        window = whole;
        total = omega (arith, h.total, length-append b.buf bytes, length-append s bytes);
        bounded = ground arith;
      })
    ]

pub append_all : OutputBuffer → List (List ℕ) → OutputBuffer
append_all b [] = b
append_all b (c ∷ cs) = append_all (append b c) cs

append_all-Holds :
    (b : OutputBuffer) (s : List ℕ) (cs : List (List ℕ))
    → Holds b s
    → Holds (append_all b cs) (s ++ flatten cs)
unfolding append_all flatten
append_all-Holds b s [] h = rw append-nil h
append_all-Holds b s (c ∷ cs) h =
    rw (append_assoc s c (flatten cs)) at
      (append_all-Holds (append b c) (s ++ c) cs (append-Holds b s c h))

-- After any appends to a new buffer, it holds the end of their concatenation, starting at its base
-- offset and ending at the stream's end, and never more than its size.
pub append_all-new :
    (max_size : ℕ) (cs : List (List ℕ))
    → Holds (append_all (new_output_buffer max_size) cs) (flatten cs)
unfolding new_output_buffer
append_all-new max_size cs =
    append_all-Holds (new_output_buffer max_size) [] cs
      (record { window = refl; total = refl; bounded = omega arith })

-- Where a read begins in the stream: the client's offset, moved into what the buffer holds.
abbrev pub start_of : OutputBuffer → ℤ → ℕ
start_of b after =
    if ltb (pos_part after) b.base_offset
    then b.base_offset
    else if ltb (b.base_offset + length b.buf) (pos_part after)
    then b.base_offset + length b.buf
    else pos_part after

pub rel_start-start_of :
    (b : OutputBuffer) (after : ℤ)
    → IsInt64 after
    → b.base_offset + length b.buf < two_63
    → neg_part after + b.base_offset ≤ two_63
    → b.base_offset + rel_start b after ≡ start_of b after
unfolding rel_start
rel_start-start_of b (pos n) h k l =
    rw (int64_exact (pos n -ℤ pos b.base_offset) (ground arith)) (ground arith)
rel_start-start_of b (negsuc n) h k l =
    rw (int64_exact (negsuc n -ℤ pos b.base_offset) (ground arith)) (ground arith)

pub rel_start-le : (b : OutputBuffer) (after : ℤ) → rel_start b after ≤ length b.buf
unfolding rel_start
rel_start-le b after = ground arith
