-- ===== src/Log/Tests.antt =====
-- Examples of src/agent/store/sealed-log.ts.
use cli_model_gateway.Base.{
  ℕ, has, get, set, ◌≡◌, refl, String, false, Option, none, some, [], ◌∷◌, List, All, arith, ◌==◌,
  ==_refl, if◌then◌else◌, returns, throws, nat_eq, string_eq, codes, anywhere,
}
use cli_model_gateway.Checker.Secrets.{has_secret}
use cli_model_gateway.Log.{
  LogRecord, Envelope, SealedLog, append, is_chained, open_lines, replay, next_record, write_record,
}
use cli_model_gateway.Pool.Leases.{
  Lease, LeaseManager, no_leases, acquire, claim, sweep, live, run, step, renew, assert_fence,
}
use cli_model_gateway.Log.Fenced.{append_fenced, append_fenced_stale}
use cli_model_gateway.Log.Replay.{IsSound, replay-IsSound, replay-append}
use cli_model_gateway.Log.Secrecy.{new_log, appends, bodies, fit_bodies, IsClean, replay-appends}

-- An envelope that keeps the record and its associated data as they are.
abbrev plain_open : LogRecord String × String → String → Option (LogRecord String)
plain_open (r, a) b = if a == b then some r else none

plain_open-pair : (r : LogRecord String) (a : String) → plain_open (r, a) a ≡ some r
plain_open-pair r a = ground (arith, ==_refl a)

abbrev plain : Envelope (LogRecord String × String) String
plain = record {
  seal = λ r a. (r, a);
  open_envelope = plain_open;
  hash = λ r. r.body;
  text = λ b. some (codes b);
  aad = λ id n. id;
  open-seal = plain_open-pair;
}

abbrev no_records : SealedLog (LogRecord String × String) String
no_records = record { log_id = "log"; records = []; file = []; cut = false; closed = false }

no_records-IsSound : IsSound plain no_records
no_records-IsSound = record {
  chained = unfold is_chained in refl;
  stored = unfold open_lines in refl;
  whole = refl;
}

abbrev note : LogRecord String
note = next_record plain "task" "t1" "made" no_records

abbrev noted : SealedLog (LogRecord String × String) String
noted = write_record plain note no_records

replay-IsSound_example : replay plain no_records ≡ returns [] no_records
replay-IsSound_example = replay-IsSound plain no_records no_records-IsSound

replay-append_example :
    (replay plain noted ≡ returns (note ∷ []) noted) × (note.seq ≡ 0) × (note.body ≡ "made")
unfolding append has_secret anywhere
replay-append_example =
    replay-append plain "task" "t1" "made" no_records noted note no_records-IsSound refl

abbrev calls : List (String × String × String)
calls = ("task", "t1", "made") ∷ ("task", "t2", "key sk_live_a1 end") ∷ ("task", "t1", "done") ∷ []

replay-appends_example :
    let log = appends plain calls (new_log plain "log") in
    (replay plain log ≡ returns log.records log)
    × (bodies plain log.records ≡ fit_bodies plain calls)
    × All (IsClean plain) (bodies plain log.records)
replay-appends_example = replay-appends plain "log" calls

-- The record with a key is the one that is left out.
fit_calls : fit_bodies plain calls ≡ "made" ∷ "done" ∷ []
unfolding has_secret anywhere
fit_calls = refl

abbrev lease : String → ℕ → String → ℕ → Lease
lease id token holder expires_at = record {
  lease_id = id;
  fencing_token = token;
  key = "repo";
  holder = holder;
  expires_at = expires_at;
}

abbrev held : LeaseManager
held = record { leases = ("repo", lease "l1" 1 "ann" 110) ∷ []; fences = ("repo", 1) ∷ [] }

-- The first lease has run out, and another holder has the key.
abbrev held_again : LeaseManager
held_again = record { leases = ("repo", lease "l2" 2 "bob" 300) ∷ []; fences = ("repo", 2) ∷ [] }

append_fenced_stale_example :
    (append_fenced plain "result" "t1" "made" (run held_again []) 250 "repo" 1 no_records
      ≡ throws "Stale fencing token" no_records)
    × ((leases : LeaseManager) (token : ℕ)
        → assert_fence 250 "repo" token leases ≡ returns tt leases
        → append_fenced plain "result" "t1" "made" leases 250 "repo" token no_records
          ≡ append plain "result" "t1" "made" no_records)
unfolding acquire claim sweep live has get set run step renew assert_fence
append_fenced_stale_example =
    append_fenced_stale plain "result" "t1" "made" no_records "repo" no_leases held held held_again
      [] [] (lease "l1" 1 "ann" 110) (lease "l2" 2 "bob" 300) 10 10 "l1" "ann" 100 200 200 "l2"
      "bob" 100 250 refl refl refl
