-- ===== src/Memory/Tests.antt =====
-- A memory whose log is a list: src/agent/memory/index.ts.
use cli_model_gateway.Base.{
  ℕ, ◌≤◌, ◌≡◌, refl, true, none, some, [], ◌∷◌, ◌++◌, List, ltb, Act, returns, nat_eq, string_eq,
  length, codes, All,
}
use cli_model_gateway.Memory.{
  MemoryRecord, facts, journal, proposed, retracted, restore, retrieve, Scores,
}
use cli_model_gateway.Memory.Restart.{Call, writes, promotes, run, is_guarded, run-restore}
use cli_model_gateway.Memory.Retrieval.{all_texts, IsKept, retrieve_lem}

abbrev fact : MemoryRecord
fact = record {
  layer = facts;
  id = "name";
  text = codes "Ann";
  status = some proposed;
  source = none;
  provenance = some (record { job_id = "j1"; receipt_id = none });
}

abbrev entry : MemoryRecord
entry = record {
  layer = journal;
  id = "2026-01-02";
  text = codes "done";
  status = none;
  source = none;
  provenance = some (record { job_id = "j1"; receipt_id = some "r1" });
}

-- A log that is never closed.
abbrev append : MemoryRecord → Act (List MemoryRecord) (Unit {0})
append r l = returns tt (l ++ r ∷ [])

abbrev read : List MemoryRecord → List MemoryRecord
read l = l

abbrev calls : List Call
calls = writes fact none ∷ promotes "name" "r2" ∷ writes entry none ∷ []

run-restore_example :
    let s = run append read (restore append read []) calls in
    (s.records ≡ (restore append read s.log).records)
    × (s.docs ≡ (restore append read s.log).docs)
    × All (λ r. is_guarded r ≡ true) s.records
run-restore_example = run-restore append read (λ r l. refl) [] calls tt

abbrev by_length : Scores
by_length = record { Score = ℕ; higher = λ a b. ltb b a; is_positive = λ a. ltb 0 a }

abbrev length_score : List ℕ → List MemoryRecord → MemoryRecord → ℕ
length_score q docs r = length r.text

retrieve_lem_example :
    let (text, records) =
      retrieve by_length length_score
        (codes "ann")
        20
        (fact ∷ record entry { status = some retracted } ∷ []) in
    (length text ≤ 20) × (text ≡ all_texts records) × All IsKept records
retrieve_lem_example =
    retrieve_lem by_length length_score (codes "ann") 20
      (fact ∷ record entry { status = some retracted } ∷ [])
