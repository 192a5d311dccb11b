-- ===== src/LastUsed/Examples.antt =====
-- A run of the flusher, and the theorem at it.
use shell_watch.Base.{
  ℕ, ◌≡◌, refl, Bool, true, none, some, String, List, [], ◌∷◌, Dict, lookup, insert, string_eq,
}
use shell_watch.LastUsed.{
  new_flusher, touch, touch_account, write, begin_flush, begin_close, end_writes, Step, touches,
  flushes, closes, writes, step, run,
}
use shell_watch.LastUsed.Writes.{accepted, run_writes_last}

abbrev alice : String
alice = "alice"

abbrev table : Dict String ℕ
table = (alice, 1) ∷ []

abbrev always : String → Bool
always id = true

-- A touch between the swap and the writes of a flush, and one after the close.
abbrev history : List Step
history =
    touches alice 5
    ∷ flushes
    ∷ touches alice 6
    ∷ writes always
    ∷ closes
    ∷ touches alice 7
    ∷ writes always
    ∷ []

abbrev stragglers : List Step
stragglers = touches alice 8 ∷ flushes ∷ writes always ∷ []

ends_closed : (run (new_flusher table) history).closed ≡ true
unfolding run step touch begin_flush begin_close end_writes
ends_closed = refl

ends_idle : (run (new_flusher table) history).in_flight ≡ none
unfolding run step touch begin_flush begin_close end_writes
ends_idle = refl

run_writes_last_example :
    (lookup alice (run (new_flusher table) history).accounts
      ≡ accepted alice (new_flusher table) (lookup alice table) history)
    × ((run (run (new_flusher table) history) stragglers).accounts
        ≡ (run (new_flusher table) history).accounts)
run_writes_last_example =
    run_writes_last alice table history stragglers (unfold lookup string_eq in refl)
      (refl, (refl, tt)) ends_closed ends_idle

history_written : lookup alice (run (new_flusher table) history).accounts ≡ some 6
unfolding run step touch begin_flush begin_close end_writes write touch_account lookup insert
    string_eq
history_written = refl
