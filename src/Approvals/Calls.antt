-- ===== src/Approvals/Calls.antt =====
-- Sequences of calls of src/agent/approvals/inbox.ts, with the approvals given and used on the way.
use cli_model_gateway.Base.{
  ℕ, ◌+◌, String, Bool, true, false, [], ◌∷◌, List, ◌==◌, if◌then◌else◌, Outcome, returns, throws,
  after, nat_eq, string_eq,
}
use cli_model_gateway.Log.{Envelope, append}
use cli_model_gateway.Approvals.{ApprovalInbox, Codec, list, request, approve, deny, consume}

pub data Call (A B : Type 0) : Type 0 where
  requests : (clock : String → ℕ) (created later : ℕ) → A → Call A B
  lists : (clock : String → ℕ) → Call A B
  approves : (clock : String → ℕ) (id : String) → Call A B
  denies : (clock : String → ℕ) (id : String) → Call A B
  consumes : (clock : String → ℕ) (digest : String) → Call A B
  -- another part of the program writes to the shared log
  logs : (type id : String) (body : B) → Call A B

module _ {S A : Type 0} where
  -- 1 for a call that returns, 0 for one that throws.
  abbrev pub returned : Outcome S A → ℕ
  returned (returns a s) = 1
  returned (throws e s) = 0

module _ {S : Type 0} where
  -- 1 for a call that returns `true`.
  abbrev pub returned_true : Outcome S Bool → ℕ
  returned_true (returns true s) = 1
  returned_true (returns false s) = 0
  returned_true (throws e s) = 0

module _ {E B A : Type 0} (env : Envelope E B) (codec : Codec A B) where
  abbrev Inbox : Type 0
  Inbox = ApprovalInbox E B A

  unfoldable pub step : Inbox → Call A B → Inbox
  step s (requests clock created later action) =
      after (request env codec clock created later action s)
  step s (lists clock) = after (list env codec clock s)
  step s (approves clock id) = after (approve env codec clock id s)
  step s (denies clock id) = after (deny env codec clock id s)
  step s (consumes clock digest) = after (consume env codec clock digest s)
  step s (logs type id body) = record s { log = after (append env type id body s.log) }

  unfoldable pub run : Inbox → List (Call A B) → Inbox
  run s [] = s
  run s (c ∷ cs) = run (step s c) cs

  -- The approvals of a digest that a call gives, and those that it uses up.
  unfoldable pub given : String → Inbox → Call A B → ℕ
  given d s (approves clock id) = if id == d then returned (approve env codec clock id s) else 0
  given d s _ = 0

  unfoldable pub used : String → Inbox → Call A B → ℕ
  used d s (consumes clock digest) =
      if digest == d then returned_true (consume env codec clock digest s) else 0
  used d s _ = 0

  unfoldable pub total_given : String → Inbox → List (Call A B) → ℕ
  total_given d s [] = 0
  total_given d s (c ∷ cs) = given d s c + total_given d (step s c) cs

  unfoldable pub total_used : String → Inbox → List (Call A B) → ℕ
  total_used d s [] = 0
  total_used d s (c ∷ cs) = used d s c + total_used d (step s c) cs
