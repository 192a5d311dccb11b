-- ===== src/Relay/Client/Ends.antt =====
-- How the loop over a connection ends, and that it never forwards an extension.
use shell_watch.Base.{ℕ, ◌≡◌, Bool, true, false, Option, none, some, List, [], ◌∷◌, ◌++◌, is_some}
use shell_watch.Relay.Client.{
  is_extension, unanswered, blocked, Outside, Relay, End, Step, continue, stop,
}

abbrev pub NoneIsExtension : List (List ℕ) → Type 0
NoneIsExtension [] = Unit
NoneIsExtension (f ∷ fs) = (is_extension f ≡ false) × NoneIsExtension fs

-- The loop has returned.
abbrev pub has_returned : Option End → Bool
has_returned none = false
has_returned (some blocked) = false
has_returned (some _) = true

-- The last frame that was forwarded gets no answer.
abbrev pub IsStalled : Outside → Relay → Type 0
IsStalled o r =
    (sent : List (List ℕ)) × (f : List ℕ) × (r.forwarded ≡ sent ++ f ∷ [])
    × (o.exchange sent f ≡ unanswered)

abbrev relay_of : Step → Relay
relay_of (continue r) = r
relay_of (stop r _) = r

module _ (o : Outside) where
  -- Only a frame that the server leaves without an answer keeps the loop from returning.
  abbrev IsExcused : Step → Type 0
  IsExcused (continue r) = Unit
  IsExcused (stop r e) = has_returned (some e) ≡ false → IsStalled o r

  -- How a connection may stand after the loop.
  abbrev IsDone : Relay × Option End → Type 0
  IsDone (r, e) =
      (is_some e ≡ true) × NoneIsExtension r.forwarded × (has_returned e ≡ false → IsStalled o r)
