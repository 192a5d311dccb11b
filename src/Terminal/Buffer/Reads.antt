-- ===== src/Terminal/Buffer/Reads.antt =====
-- What `Read` and `ReadFrom` return, in terms of the stream that the ring holds the end of.
use shell_watch.Base.{
  ℕ, ◌+◌, ◌-◌, ◌≤◌, ◌<◌, ◌≡◌, refl, ap, ◌∙◌, true, false, none, some, List, [], ◌++◌, append-nil,
  arith, ltb, length, take, drop, length-drop, take-append-drop, drop-drop, take_all, nat_eq, ℤ,
  pos, negsuc, pos_part, neg_part, IsInt64, int64_exact, two_63, two_64, Bool-cases, inl, inr, ◌↔◌,
  int64_overflow,
}
use shell_watch.Terminal.Buffer.{
  OutputBuffer, FromResult, slice, clamp, rel_start, effective_limit, read, read_from, read_at,
}
use shell_watch.Terminal.Buffer.Stream.{Holds, start_of, rel_start-start_of, rel_start-le}

slice-clamp :
    (buf : List ℕ) (lo n : ℕ)
    → lo ≤ length buf
    → slice buf lo (clamp (length buf) (pos (lo + n))) ≡ some (take n (drop lo buf))
unfolding slice
slice-clamp buf lo n h = elim (Bool-cases (ltb (length buf) (lo + n))) [
  | inl past ↦ rw past (
      ground (
        arith,
        take_all (length buf - lo) (drop lo buf),
        take_all n (drop lo buf),
        length-drop lo buf,
      ))
  | inr within ↦
      rw within
        (ground (arith, ap (λ k. take k (drop lo buf)) {x = lo + n - lo} {y = n} (omega arith)))
]

drop_window :
    (b : OutputBuffer) (s : List ℕ) (r : ℕ) → Holds b s → drop r b.buf ≡ drop (b.base_offset + r) s
drop_window b s r h = ap (drop r) h.window ∙ drop-drop r b.base_offset s

read_at_lem :
    (b : OutputBuffer) (s : List ℕ) (r lim : ℕ)
    → Holds b s
    → r ≤ length b.buf
    → let rest = drop (b.base_offset + r) s in
      read_at b r (pos (r + lim))
      ≡ some (record {
        bytes = take lim rest;
        offset = b.base_offset + r + length (take lim rest);
        has_more = ltb (b.base_offset + r + lim) (length s);
      })
unfolding read_at
read_at_lem b s r lim h le =
    rw (slice-clamp b.buf r lim le, drop_window b s r h) (ground (arith, h.total))

-- `Read` on a ring that holds the stream `s` does not panic, returns the first bytes of `s` from the
-- client's offset (moved into the ring's window), at most the limit (4000 where it is not
-- positive), the offset just past them, and whether `s` goes on beyond the limit. The conditions
-- say that no `int64` in it overflows.
pub read-Holds :
    (b : OutputBuffer) (s : List ℕ) (after limit : ℤ)
    → Holds b s
    → IsInt64 after
    → neg_part after + b.base_offset ≤ two_63
    → length s + effective_limit limit < two_63
    → read b after limit
      ≡ some (record {
        bytes = take (effective_limit limit) (drop (start_of b after) s);
        offset =
            start_of b after + length (take (effective_limit limit) (drop (start_of b after) s));
        has_more = ltb (start_of b after + effective_limit limit) (length s);
      })
unfolding read
read-Holds b s after limit h i n k =
    let lim = effective_limit limit in
    let r = rel_start b after in
    let at_start = rel_start-start_of b after i (omega (arith, h.total)) n in
    let exact = int64_exact (pos (r + lim)) (omega (arith, h.total, rel_start-le b after)) in
    let found = read_at_lem b s r lim h (rel_start-le b after) in rw exact (rw at_start at found)

-- A read whose start in the ring plus its limit is at least 2 ^ 63, and below 2 ^ 64, takes a slice
-- with a negative bound: it panics.
pub read_panics :
    (b : OutputBuffer) (after limit : ℤ)
    → two_63 ≤ rel_start b after + effective_limit limit
    → rel_start b after + effective_limit limit < two_64
    → read b after limit ≡ none
unfolding read read_at slice
read_panics b after limit h k =
    rw (int64_overflow (rel_start b after + effective_limit limit) h k) refl

rejoin :
    (b : OutputBuffer) (s : List ℕ) (n : ℕ)
    → Holds b s
    → b.base_offset ≤ n
    → take n s ++ drop (n - b.base_offset) b.buf ≡ s
rejoin b s n h le = rw (drop_window b s (n - b.base_offset) h) (
    ap (λ k. take n s ++ drop k s) {x = b.base_offset + (n - b.base_offset)} {y = n} (omega arith)
    ∙ take-append-drop n s)

rejoin_end : (s : List ℕ) → take (length s) s ++ [] ≡ s
rejoin_end s = rw append-nil (take_all (length s) s (omega arith))

abbrev pub Serves : OutputBuffer → List ℕ → ℤ → FromResult → Type 0
Serves b s off r =
    (r.offset ≡ length s)
    × (r.reset ≡ true → r.bytes ≡ b.buf)
    × ((r.reset ≡ false)
        ↔ ((neg_part off ≡ 0) × (b.base_offset ≤ pos_part off) × (pos_part off ≤ length s)))
    × (r.reset ≡ false → take (pos_part off) s ++ r.bytes ≡ s)

-- `ReadFrom` on a ring that holds the stream `s`: without an offset, or with one that the ring
-- cannot serve (before its base offset or past the end), it returns all that the ring holds,
-- and only the second raises the reset flag. With an offset that it can serve, what it returns
-- completes the client's copy of `s` up to the end, and no reset is asked for.
pub read_from-Holds :
    (b : OutputBuffer) (s : List ℕ) (off : ℤ)
    → Holds b s
    → ((read_from b none).bytes ≡ b.buf)
      × ((read_from b none).reset ≡ false)
      × Serves b s off (read_from b (some off))
unfolding read_from
read_from-Holds b s (negsuc n) h =
    (refl, refl, (h.total, λ _. refl, (λ e. cc, λ e. ground arith), λ e. cc))
read_from-Holds b s (pos n) h = (
  refl,
  refl,
  (
    ground (arith, h.total),
    ground arith,
    (ground (arith, h.total), ground (arith, h.total)),
    ground (arith, h.total, rejoin b s n h, rejoin_end s),
  ),
)
