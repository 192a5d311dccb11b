-- ===== src/Terminal/Buffer.antt =====
-- internal/terminal/buffer.go: the output ring with a monotonic base offset. Bytes are numbers.
-- A mutex guards every method. `base_offset` counts the bytes dropped in the life of one session
-- and is left unbounded; what a client sends, an offset and a limit, is an `int64`, and the
-- arithmetic on it wraps as Go's does. `none` as the result of `read` is a panic of a slice
-- expression whose bounds are out of range.
pub mod Stream
pub mod Reads
pub mod Tail
pub mod Examples
use mathlib.Core.Option
use shell_watch.Base.{
  ℕ, zero, suc, ◌+◌, ◌-◌, Bool, true, false, ◌||◌, Option, none, some, List, [], ◌∷◌, ◌++◌, ltb,
  leb, ◌==◌, if◌then◌else◌, length, take, drop, nat_eq, ℤ, pos, negsuc, pos_part, neg_part, ◌-ℤ◌,
  int64,
}

abbrev pub default_max_size : ℕ
default_max_size = 1048576

pub record OutputBuffer : Type 0 where
  pub buf : List ℕ
  pub base_offset : ℕ
  pub max_size : ℕ

pub record ReadResult : Type 0 where
  pub bytes : List ℕ
  pub offset : ℕ
  pub has_more : Bool

pub record FromResult : Type 0 where
  pub bytes : List ℕ
  pub offset : ℕ
  pub reset : Bool

-- The argument is Go's `int`; 0 stands for every value that is not positive.
unfoldable pub new_output_buffer : ℕ → OutputBuffer
new_output_buffer max_size = record {
  buf = [];
  base_offset = 0;
  max_size = if max_size == 0 then default_max_size else max_size;
}

unfoldable pub append : OutputBuffer → List ℕ → OutputBuffer
append b bytes =
    let buf = b.buf ++ bytes in
    if ltb b.max_size (length buf)
    then record b {
      buf = drop (length buf - b.max_size) buf;
      base_offset = b.base_offset + (length buf - b.max_size);
    }
    else record b { buf = buf }

-- `buf[lo:hi]`, where `hi` is no more than the length.
unfoldable pub slice : List ℕ → ℕ → ℤ → Option (List ℕ)
slice buf lo (negsuc n) = none
slice buf lo (pos hi) = if leb lo hi then some (take (hi - lo) (drop lo buf)) else none

-- `if x > int64(len(b.buf)) { x = int64(len(b.buf)) }`
abbrev pub clamp : ℕ → ℤ → ℤ
clamp n (negsuc k) = negsuc k
clamp n (pos k) = if ltb n k then pos n else pos k

abbrev pub int_lt : ℤ → ℕ → Bool
int_lt (negsuc k) n = true
int_lt (pos k) n = ltb k n

-- `relStart`, after both of its corrections.
unfoldable pub rel_start : OutputBuffer → ℤ → ℕ
rel_start b after_offset =
    let r = pos_part (int64 (after_offset -ℤ pos b.base_offset)) in
    if ltb (length b.buf) r then length b.buf else r

abbrev pub effective_limit : ℤ → ℕ
effective_limit limit = if pos_part limit == 0 then 4000 else pos_part limit

-- `Read` once the start and the uncorrected end of the slice are known.
unfoldable pub read_at : OutputBuffer → ℕ → ℤ → Option ReadResult
unfolding slice
read_at b start end =
    Option.map
      (λ bytes. record {
        bytes = bytes;
        offset = b.base_offset + start + length bytes;
        has_more = int_lt end (length b.buf);
      })
      (slice b.buf start (clamp (length b.buf) end))

unfoldable pub read : OutputBuffer → ℤ → ℤ → Option ReadResult
read b after_offset limit =
    let start = rel_start b after_offset in
    read_at b start (int64 (pos (start + effective_limit limit)))

-- The last three returns of `ReadFrom`, for an offset that is given.
unfoldable pub read_from_offset : OutputBuffer → ℤ → FromResult
read_from_offset b (negsuc n) = record {
  bytes = b.buf;
  offset = b.base_offset + length b.buf;
  reset = true;
}
read_from_offset b (pos off) =
    let cur = b.base_offset + length b.buf in
    if off == cur
    then record { bytes = []; offset = cur; reset = false }
    else if ltb cur off || ltb off b.base_offset
    then record { bytes = b.buf; offset = cur; reset = true }
    else record { bytes = drop (off - b.base_offset) b.buf; offset = cur; reset = false }

unfoldable pub read_from : OutputBuffer → Option ℤ → FromResult
unfolding read_from_offset
read_from b none = record { bytes = b.buf; offset = b.base_offset + length b.buf; reset = false }
read_from b (some off) = read_from_offset b off

unfoldable pub current_offset : OutputBuffer → ℕ
current_offset b = b.base_offset + length b.buf

abbrev pub esc : ℕ
esc = 27

-- `bytes.IndexByte`, with `none` for -1.
unfoldable pub index_byte : List ℕ → ℕ → Option ℕ
index_byte [] c = none
index_byte (x ∷ xs) c = if x == c then some 0 else Option.map suc (index_byte xs c)

-- The argument is Go's `int`; 0 stands for every value that is not positive.
unfoldable pub tail : OutputBuffer → ℕ → List ℕ
unfolding index_byte
tail b limit =
    if limit == 0
    then []
    else if leb (length b.buf) limit
    then b.buf
    else elim (index_byte (drop (length b.buf - limit) b.buf) esc) [
      | none ↦ drop (length b.buf - limit) b.buf
      | some i ↦ drop i (drop (length b.buf - limit) b.buf)
    ]

unfoldable pub clear : OutputBuffer → OutputBuffer
clear b = record b { buf = []; base_offset = 0 }
