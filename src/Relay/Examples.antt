-- ===== src/Relay/Examples.antt =====
-- Runs of the relay, and the theorems at concrete inputs.
use mathlib.Core.List.{flatten, map}
use shell_watch.Base.{
  ℕ, ◌+◌, ◌≡◌, refl, Bool, true, false, none, some, List, [], ◌∷◌, arith, nat_eq,
}
use shell_watch.Relay.Wire.{encode, be32}
use shell_watch.Relay.Framing.{new_writer, first_frame, flush, write, write_all}
use shell_watch.Relay.Framing.Chunks.{write_all-flatten}
use shell_watch.Relay.Framing.Whole.{write_all-encode}
use shell_watch.Relay.Client.{answered, unanswered, Outside, new_relay, at_eof, handle_connection}
use shell_watch.Relay.Client.Answers.{requests, expected, handle_connection-encode}
use shell_watch.Relay.Dial.{Attempt, dial_budget, dial_with_retry}
use shell_watch.Relay.Dial.Ends.{Ends, dial_with_retry-Ends}

abbrev always : ℕ → Bool
always n = true

-- Two frames, of two bytes and of one, cut inside the lengths.
abbrev chunks : List (List ℕ)
chunks = (0 ∷ 0 ∷ 0 ∷ []) ∷ (2 ∷ 12 ∷ 7 ∷ 0 ∷ []) ∷ (0 ∷ 0 ∷ 1 ∷ 5 ∷ []) ∷ []

abbrev payloads : List (List ℕ)
payloads = (12 ∷ 7 ∷ []) ∷ (5 ∷ []) ∷ []

chunks_sent :
    (write_all always new_writer chunks).0.sent
    ≡ (0 ∷ 0 ∷ 0 ∷ 2 ∷ 12 ∷ 7 ∷ []) ∷ (0 ∷ 0 ∷ 0 ∷ 1 ∷ 5 ∷ []) ∷ []
unfolding write_all write flush first_frame be32
chunks_sent = refl

write_all-flatten_example :
    ((write_all always new_writer chunks).0.sent
      ≡ (write always new_writer (flatten chunks)).0.sent)
    × ((write_all always new_writer chunks).1 ≡ (write always new_writer (flatten chunks)).1)
write_all-flatten_example = write_all-flatten always chunks (unfold flatten in omega arith)

write_all-encode_example :
    ((write_all always new_writer chunks).0.sent ≡ map encode payloads)
    × ((write_all always new_writer chunks).1 ≡ true)
write_all-encode_example =
    write_all-encode always chunks payloads (λ n. refl) (unfold flatten encode in refl)
      (unfold flatten in omega arith)

-- A server that answers with the frame itself.
abbrev echo : Outside
echo = record { dials = true; exchange = λ sent f. answered f; takes = λ n. true }

-- An identity request, an extension and an empty frame.
abbrev asked : List (List ℕ)
asked = (11 ∷ []) ∷ (27 ∷ 1 ∷ []) ∷ [] ∷ []

handle_connection-encode_example :
    ((handle_connection echo 4 (flatten (map encode asked)) new_relay).1 ≡ some at_eof)
    × ((handle_connection echo 4 (flatten (map encode asked)) new_relay).0.forwarded
        ≡ requests (map encode asked))
    × ((handle_connection echo 4 (flatten (map encode asked)) new_relay).0.replies
        ≡ expected (λ sent f. f) [] (map encode asked))
handle_connection-encode_example =
    handle_connection-encode echo (λ sent f. f) asked 4
      (record { connects = refl; answers = λ sent f. refl; takes = λ n. refl }) (omega arith)
      (omega arith)

-- A server that answers pings only, and a program that breaks off inside a frame.
abbrev silent : Outside
silent = record { dials = true; exchange = λ sent f. unanswered; takes = λ n. true }

abbrev broken_off : List ℕ
broken_off = 0 ∷ 0 ∷ 0 ∷ 1 ∷ 27 ∷ 0 ∷ 0 ∷ 0 ∷ 9 ∷ 1 ∷ []

-- Every dial fails at once with a network error.
abbrev unreachable : ℕ → Attempt
unreachable n = record {
  error = some (record {
    response = none;
    cert_verification = false;
    unknown_authority = false;
    hostname = false;
    cert_invalid = false;
    net_error = true;
    eof = false;
  });
  takes = 0;
  late = 3;
}

dial_with_retry-Ends_example :
    Ends unreachable 7 (1000 + dial_budget + 3) (dial_with_retry unreachable 1000)
dial_with_retry-Ends_example = dial_with_retry-Ends unreachable 3 1000 (λ n. omega arith)
