-- ===== src/LastUsed.antt =====
-- internal/store/lastused.go: the time stamps of the last use of accounts, collected in memory and
-- written later. `mu` makes the reads and writes of the fields one section, and `writeMu` is held
-- from the swap of the map to the end of its writes: `in_flight` is the batch in between, and a
-- flush or a close that finds one waits, which is no step. Touches come at any point. `TouchAccountLastUsed`
-- is an UPDATE of the account's row; whether the database takes it is an argument.
pub mod Writes
pub mod Examples
use shell_watch.Base.{
  ℕ, Bool, true, false, ◌&&◌, Option, none, some, String, List, [], ◌∷◌, if◌then◌else◌, Dict,
  lookup, insert, is_some, string_eq,
}

pub record Flusher : Type 0 where
  pub dirty : Dict String ℕ
  pub closed : Bool
  pub in_flight : Option (Dict String ℕ)
  pub accounts : Dict String ℕ

abbrev pub new_flusher : Dict String ℕ → Flusher
new_flusher accounts = record { dirty = []; closed = false; in_flight = none; accounts = accounts }

unfoldable pub touch : Flusher → String → ℕ → Flusher
touch f id now = if f.closed then f else record f { dirty = insert id now f.dirty }

-- `UPDATE accounts SET last_used_at = ? WHERE id = ?`
unfoldable pub touch_account : (String → Bool) → Dict String ℕ → String → ℕ → Dict String ℕ
touch_account takes accounts id ts =
    if takes id && is_some (lookup id accounts) then insert id ts accounts else accounts

unfoldable pub write : (String → Bool) → Dict String ℕ → Dict String ℕ → Dict String ℕ
unfolding touch_account
write takes [] accounts = accounts
write takes ((id, ts) ∷ batch) accounts = write takes batch (touch_account takes accounts id ts)

-- `Flush` up to its writes.
unfoldable pub begin_flush : Flusher → Flusher
begin_flush f = elim f.in_flight [
  | some _ ↦ f
  | none ↦ if f.closed then f else record f { dirty = []; in_flight = some f.dirty }
]

-- `CloseAndFlush` up to its writes.
unfoldable pub begin_close : Flusher → Flusher
begin_close f = elim f.in_flight [
  | some _ ↦ f
  | none ↦ record f { dirty = []; in_flight = some f.dirty; closed = true }
]

-- The writes, and the release of `writeMu`.
unfoldable pub end_writes : (String → Bool) → Flusher → Flusher
unfolding write
end_writes takes f = elim f.in_flight [
  | none ↦ f
  | some batch ↦ record f { in_flight = none; accounts = write takes batch f.accounts }
]

pub data Step : Type 0 where
  touches : String → ℕ → Step
  flushes closes : Step
  writes : (String → Bool) → Step

unfoldable pub step : Flusher → Step → Flusher
unfolding touch begin_flush begin_close end_writes
step f (touches id now) = touch f id now
step f flushes = begin_flush f
step f closes = begin_close f
step f (writes takes) = end_writes takes f

unfoldable pub run : Flusher → List Step → Flusher
run f [] = f
run f (s ∷ ss) = run (step f s) ss
