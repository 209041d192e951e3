-- ===== src/Utils/Tests.antt =====
-- Examples of src/utils.
use cli_model_gateway.Base.{
  codes, ℕ, ◌+◌, ◌-◌, ◌<◌, ◌≤◌, min, ◌≡◌, refl, String, true, false, none, some, [], ◌∷◌, ◌++◌,
  List, arith, ltb, if◌then◌else◌, Table, delete, throws, nat_eq, string_eq, length, drop,
}
use cli_model_gateway.Utils.Lru.{lru_set, capacity}
use cli_model_gateway.Utils.Lru.Eviction.{lru_set_lem}
use cli_model_gateway.Utils.Shell.{start, read_words, command_line, read_words-shell_escape}
use cli_model_gateway.Utils.OutputLimit.{
  Metadata, number, read_from, read_output_limit, aliases, Agrees, max_safe, kimi_limit,
  read_output_limit-Agrees, kimi_limit_lem,
}
use cli_model_gateway.Utils.Execution.{
  Cause, GatewayPolicy, ExecutionPolicy, Call, attempts_with, dispatches, finishes, cancels,
  expires, step, check, attempted, dispatched_to, unknown, deadline_exceeded, cancelled, aborted,
  ended, first_cause, reason, abort, attempt, dispatch, can_fallback, finish, limits, new, run,
}
use cli_model_gateway.Utils.Execution.Counted.{
  IsBelow, count_attempts, count_dispatches, count_ends,
}
use cli_model_gateway.Utils.Execution.Budget.{run_receipts}
use cli_model_gateway.Utils.Execution.Deadline.{due_refuses}
use cli_model_gateway.Utils.Execution.Aborted.{AllAborted, reached, run_aborted}

abbrev entries : Table String ℕ
entries = ("a", 1) ∷ ("b", 2) ∷ []

lru_set_lem_example :
    (lru_set 2 "c" 3 entries
      ≡ drop (length (delete "c" entries) + 1 - capacity 2) (delete "c" entries) ++ ("c", 3) ∷ [])
    × (length (lru_set 2 "c" 3 entries) ≤ capacity 2)
lru_set_lem_example = lru_set_lem 2 "c" 3 entries

abbrev metadata : Metadata
metadata = record {
  max_tokens = some (number 64);
  max_completion_tokens = none;
  max_output_tokens = some (number 64);
}

read_output_limit-Agrees_example : Agrees 64 (aliases metadata) × (0 < 64) × (64 ≤ max_safe)
unfolding read_output_limit read_from
read_output_limit-Agrees_example = read_output_limit-Agrees metadata 64 refl

kimi_limit_lem_example :
    (kimi_limit 64 (some 32) (some 48) ≡ min (min 64 32) 48)
    × (kimi_limit 64 none (some 48) ≡ min 64 48)
    × (kimi_limit 64 (some 32) none ≡ min 64 32)
    × (kimi_limit 64 none none ≡ 64)
kimi_limit_lem_example = kimi_limit_lem 64 32 48 refl refl

abbrev policy : GatewayPolicy
policy = record {
  operation_id = "op";
  allow_fallback = true;
  max_attempts = 2;
  max_latency_ms = 100;
}

abbrev calls : List Call
calls =
    attempts_with "m" "p" 10 10
    ∷ dispatches 11 11
    ∷ attempts_with "n" "q" 20 20
    ∷ attempts_with "o" "r" 30 30
    ∷ finishes true 40
    ∷ finishes false 41
    ∷ []

run_receipts_example :
    let s = run calls (new (some policy) "r" "m" 0 1 false) in
    IsBelow s.attempts s.max_attempts
    × (s.max_attempts ≡ some 2)
    × (count_attempts s.receipts ≡ s.attempts)
    × (count_ends s.receipts ≡ (if s.terminal then 1 else 0))
    × (s.dispatched ≡ ltb 0 (count_dispatches s.receipts))
run_receipts_example = run_receipts (some policy) "r" "m" 0 1 false calls

abbrev open_policy : ExecutionPolicy
open_policy = limits (some policy) "r" "m" 0

due_refuses_example :
    (c : Cause) × (first_cause deadline_exceeded none ≡ some c)
    × (attempt "m" "p" 150 150 open_policy
        ≡ throws (reason c) (abort deadline_exceeded open_policy))
    × (dispatch 150 150 open_policy ≡ throws (reason c) (abort deadline_exceeded open_policy))
    × (can_fallback 150 open_policy ≡ throws (reason c) (abort deadline_exceeded open_policy))
due_refuses_example = due_refuses 150 150 "m" "p" open_policy 100 refl (omega arith)

abbrev until_cancelled : List Call
until_cancelled = attempts_with "m" "p" 10 10 ∷ dispatches 11 11 ∷ cancels ∷ []

abbrev after_cancelled : List Call
after_cancelled =
    attempts_with "n" "q" 20 20
    ∷ dispatches 21 21
    ∷ expires
    ∷ finishes true 40
    ∷ finishes false 41
    ∷ []

run_aborted_example :
    let s = reached (some policy) "r" "m" 0 1 false until_cancelled in
    ((run after_cancelled s).signal ≡ some cancelled)
    × (count_attempts (run after_cancelled s).receipts ≡ count_attempts s.receipts)
    × (count_dispatches (run after_cancelled s).receipts ≡ count_dispatches s.receipts)
    × AllAborted cancelled (count_dispatches s.receipts) (run after_cancelled s).receipts
unfolding run step attempt dispatch check new
run_aborted_example =
    run_aborted (some policy) "r" "m" 0 1 false until_cancelled cancelled after_cancelled refl refl

-- The receipts that are sent, newest first: the last is the one of `finish`.
aborted_receipts :
    (run after_cancelled (reached (some policy) "r" "m" 0 1 false until_cancelled)).receipts
    ≡ ended "m" 1 40 (aborted cancelled) unknown true false
      ∷ dispatched_to "m" 1 11
      ∷ attempted "m" "p" 1 10
      ∷ []
unfolding run step attempt dispatch finish check new
aborted_receipts = refl

abbrev arguments : List (List ℕ)
arguments = codes "it's" ∷ codes "" ∷ codes "a b" ∷ []

read_words-shell_escape_example : read_words start (command_line arguments) ≡ some arguments
read_words-shell_escape_example = read_words-shell_escape arguments

-- Nothing is no word.
no_words : read_words start [] ≡ some []
unfolding read_words
no_words = refl
