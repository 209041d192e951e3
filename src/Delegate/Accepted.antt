-- ===== src/Delegate/Accepted.antt =====
-- The check that ends a job of src/agent/delegate/delegate-tool.ts.
use cli_model_gateway.Base.{
  ℕ, ◌≡◌, String, Bool, true, false, some, List, get, set, Outcome, returns, throws, nat_eq,
  string_eq,
}
use cli_model_gateway.Pool.Workers.{done}
use cli_model_gateway.Checker.Check.{Artifact, Receipt}
use cli_model_gateway.Delegate.{DelegateJob, DelegateTool, Outside, is_awaiting, or_empty}

module _ {P R W : Type 0} (outside : Outside P R W) where
  -- What the outcome of `accept_check` says.
  abbrev pub IsAccepted :
      String → List Artifact → Receipt → DelegateTool W → Outcome (DelegateTool W) Bool → Type 0
  IsAccepted id artifacts receipt s (returns true t) =
      (job : DelegateJob) × (get id s.jobs ≡ some job)
      × (is_awaiting job.state ≡ true)
      × (outside.digest artifacts ≡ outside.digest (or_empty job.artifacts))
      × (outside.is_done job.job_id artifacts receipt ≡ true)
      × ((seq : ℕ) × (t.jobs
            ≡ set job.job_id (record job { state = done; last_event_seq = some seq }) s.jobs))
  IsAccepted id artifacts receipt s (returns false t) = t ≡ s
  IsAccepted id artifacts receipt s (throws e t) = t.jobs ≡ s.jobs
