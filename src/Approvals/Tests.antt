-- ===== src/Approvals/Tests.antt =====
-- Examples of src/agent/approvals/inbox.ts.
use cli_model_gateway.Base.{
  ℕ, ◌≤◌, ◌≡◌, refl, String, false, Option, none, some, [], ◌∷◌, List, arith, ◌==◌, ==_refl,
  if◌then◌else◌, returns, nat_eq, string_eq, codes, All,
}
use cli_model_gateway.Log.{LogRecord, Envelope, SealedLog, replay, is_chained, open_lines}
use cli_model_gateway.Log.Replay.{IsSound}
use cli_model_gateway.Approvals.{InboxItem, ApprovalInbox, Codec, new_inbox}
use cli_model_gateway.Approvals.Calls.{
  Call, requests, approves, consumes, run, total_given, total_used,
}
use cli_model_gateway.Approvals.SingleUse.{total_used-le-total_given}
use cli_model_gateway.Approvals.Durable.{run-restart, IsForeign}

-- A body is an item; an item's text is the identifier.
abbrev item_open :
    LogRecord (InboxItem String) × String → String → Option (LogRecord (InboxItem String))
item_open (r, a) b = if a == b then some r else none

item_open-pair : (r : LogRecord (InboxItem String)) (a : String) → item_open (r, a) a ≡ some r
item_open-pair r a = ground (arith, ==_refl a)

abbrev env : Envelope (LogRecord (InboxItem String) × String) (InboxItem String)
env = record {
  seal = λ r a. (r, a);
  open_envelope = item_open;
  hash = λ r. r.prev_hash;
  text = λ i. some (codes i.id);
  aad = λ id n. id;
  open-seal = item_open-pair;
}

abbrev codec : Codec String (InboxItem String)
codec = record { digest = λ a. a; wrap = λ i. i; unwrap = λ i. i; unwrap-wrap = λ i. refl }

abbrev log : SealedLog (LogRecord (InboxItem String) × String) (InboxItem String)
log = record { log_id = "log"; records = []; file = []; cut = false; closed = false }

abbrev inbox : ApprovalInbox (LogRecord (InboxItem String) × String) (InboxItem String) String
inbox = record { log = log; items = []; ttl_ms = 100 }

abbrev clock : String → ℕ
clock id = 20

abbrev calls : List (Call String (InboxItem String))
calls =
    requests clock 10 10 "send"
    ∷ approves clock "send"
    ∷ consumes clock "send"
    ∷ consumes clock "send"
    ∷ []

total_used-le-total_given_example :
    total_used env codec "send" inbox calls ≤ total_given env codec "send" inbox calls
total_used-le-total_given_example = total_used-le-total_given env codec "send" inbox calls refl

calls-IsForeign : All (IsForeign env codec) calls
calls-IsForeign = (
  (λ t i b e. absurd (cc)),
  ((λ t i b e. absurd (cc)), ((λ t i b e. absurd (cc)), ((λ t i b e. absurd (cc)), tt))),
)

log-IsSound : IsSound env log
log-IsSound = record {
  chained = unfold is_chained in refl;
  stored = unfold open_lines in refl;
  whole = refl;
}

run-restart_example :
    let s = run env codec (new_inbox env codec log 100) calls in
    (replay env s.log ≡ returns s.log.records s.log) × (new_inbox env codec s.log 100 ≡ s)
run-restart_example = run-restart env codec log 100 calls log-IsSound calls-IsForeign
