-- ===== src/Ratelimit.antt =====
-- internal/ratelimit/ratelimit.go: fixed windows, one bucket for each client address. Times and
-- durations are nanoseconds, and the zero time is 0; a limit that is not positive is 0. The entry
-- that a walk of the full map gives first is the argument `victim`. Of the middleware's answer the
-- text of the body, with `humanDuration`, is left out.
pub mod Bounds
pub mod Windows
pub mod Examples
use shell_watch.Base.{
  ℕ, suc, ◌+◌, ◌-◌, ◌/◌, Bool, true, false, not, ◌&&◌, ◌||◌, Option, none, some, String, List, [],
  ◌∷◌, ltb, leb, ◌==◌, if◌then◌else◌, Dict, lookup, insert, erase, is_some, length, take, drop,
  string_eq, nat_eq,
}
use shell_watch.Sshx.Pins.{bytes_eq}

abbrev pub max_buckets : ℕ
max_buckets = 5000

abbrev pub second : ℕ
second = 1000000000

pub record Bucket : Type 0 where
  pub count : ℕ
  pub start : ℕ

pub record Limiter : Type 0 where
  pub max : ℕ
  pub window : ℕ
  pub buckets : Dict String Bucket
  pub last_prune : ℕ

unfoldable pub new_limiter : ℕ → ℕ → Limiter
new_limiter max window = record { max = max; window = window; buckets = []; last_prune = 0 }

-- `now.Sub(b.start) >= l.window`
abbrev pub is_over : ℕ → ℕ → Bucket → Bool
is_over window now b = leb (b.start + window) now

unfoldable pub prune : ℕ → ℕ → Dict String Bucket → Dict String Bucket
prune window now [] = []
prune window now ((k, b) ∷ d) =
    let rest = prune window now d in if is_over window now b then rest else (k, b) ∷ rest

unfoldable pub evict : String → Dict String Bucket → Dict String Bucket
evict victim d = if is_some (lookup victim d) then erase victim d else drop 1 d

abbrev pub prune_due : Limiter → ℕ → Limiter
prune_due l now =
    if leb (l.last_prune + second) now
    then record l { last_prune = now; buckets = prune l.window now l.buckets }
    else l

abbrev pub evict_full : Limiter → String → Limiter
evict_full l victim =
    if leb max_buckets (length l.buckets) then record l { buckets = evict victim l.buckets } else l

-- What a new bucket makes room for, where the key has none.
unfoldable pub make_room : Limiter → String → ℕ → String → Limiter
make_room l key now victim =
    if not (is_some (lookup key l.buckets)) && leb max_buckets (length l.buckets)
    then evict_full (prune_due l now) victim
    else l

pub record Verdict : Type 0 where
  pub ok : Bool
  pub remaining : ℕ
  pub reset : ℕ

abbrev pub hit : Limiter → String → ℕ → Bucket → Limiter × Verdict
hit l key now b = (
  record l { buckets = insert key (record b { count = suc b.count }) l.buckets },
  record {
    ok = leb (suc b.count) l.max;
    remaining = l.max - suc b.count;
    reset = l.window + b.start - now;
  },
)

abbrev pub fresh : Limiter → String → ℕ → String → Limiter × Verdict
fresh l key now victim =
    hit (make_room l key now victim) key now (record { count = 0; start = now })

unfoldable pub allow : Limiter → String → ℕ → String → Limiter × Verdict
allow l key now victim =
    if l.max == 0
    then (l, record { ok = true; remaining = 0; reset = 0 })
    else elim (lookup key l.buckets) [
      | none ↦ fresh l key now victim
      | some b ↦ if is_over l.window now b then fresh l key now victim else hit l key now b
    ]

-- A path is its bytes.
pub record Rule : Type 0 where
  pub method : String
  pub path : List ℕ
  pub prefix : Bool
  pub limiter : Limiter

pub record Request : Type 0 where
  pub method : String
  pub path : List ℕ
  pub client_ip : String

unfoldable pub matches : Rule → Request → Bool
matches r req =
    if not (req.method == r.method)
    then false
    else if r.prefix
    then ltb (length r.path) (length req.path) && take (length r.path) req.path == r.path
    else req.path == r.path

pub record Headers : Type 0 where
  pub limit : ℕ
  pub remaining : ℕ
  pub reset_secs : ℕ

-- The next handler with the headers, or the answer 429 with them.
pub data Answer : Type 0 where
  handled : Option Headers → Answer
  too_many : Headers → Answer

abbrev pub headers_of : Limiter → Verdict → Headers
headers_of l v = record {
  limit = l.max;
  remaining = v.remaining;
  reset_secs = (v.reset + second / 2) / second;
}

abbrev pub answer_of : Limiter → Verdict → Answer
answer_of l v = if not v.ok then too_many (headers_of l v) else handled (some (headers_of l v))

unfoldable pub middleware : List Rule → Request → ℕ → String → List Rule × Answer
middleware [] req now victim = ([], handled none)
middleware (r ∷ rs) req now victim =
    let (rest, a) = middleware rs req now victim in
    if not (matches r req)
    then (r ∷ rest, a)
    else (let (l, v) = allow r.limiter req.client_ip now victim in
        (record r { limiter = l } ∷ rs, answer_of r.limiter v))
