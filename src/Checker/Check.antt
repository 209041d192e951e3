-- ===== src/Checker/Check.antt =====
-- `check` of src/agent/checker/checker.ts and `isDone` of src/agent/checker/gate.ts. The hash, the
-- keyed hash, the decoding of hexadecimal text and the canonical text of the digests are parameters,
-- and so is the router: it answers with what `JSON.parse` makes of its text, and may throw.
use cli_model_gateway.Base.{
  ℕ, String, Bool, true, false, not, ◌&&◌, ◌||◌, Option, none, some, [], ◌∷◌, ◌++◌, map, List, ◌==◌,
  ◌!=◌, if◌then◌else◌, Outcome, Act, returns, throws, nat_eq, string_eq, length, any, all,
}
use cli_model_gateway.Checker.Secrets.{has_secret}
use cli_model_gateway.Checker.Commands.{policy_violation}

pub record Artifact : Type 0 where
  pub name : String
  pub content : List ℕ
  pub sha256 : String

pub record CheckRequest : Type 0 where
  pub job_id : String
  pub artifacts : List Artifact
  pub acceptance : List String
  pub worker_provider : Option String

pub record CheckResult : Type 0 where
  pub check_name : String
  pub pass : Bool
  pub detail : String

pub data Verdict : Type 0 where
  passed failed needs_review : Verdict

-- `Omit<Receipt, "mac">`
pub record Unsigned : Type 0 where
  pub receipt_id : String
  pub job_id : String
  pub artifact_digests : List (String × String)
  pub checks : List CheckResult
  pub verdict : Verdict
  pub at : ℕ
  pub checker_model : Option String

pub record Receipt : Type 0 where
  pub unsigned : Unsigned
  pub mac : String

-- The parsed answer of the router: `none` if the text is no JSON, then the field `pass` if it is a
-- Boolean.
pub record Decision : Type 0 where
  pub output : Option (Option Bool)
  pub resolved_model : String

-- The budget and the message of the call follow from the request.
pub record Services (W : Type 0) : Type 0 where
  pub sha : List ℕ → String
  pub receipt_mac : Unsigned → String
  pub from_hex : String → List ℕ
  pub digests_text : List (String × String) → String
  pub decide : Option (CheckRequest → Act W Decision)

abbrev pub every : List CheckResult → Bool
every checks = all (λ c. c.pass) checks

abbrev pub is_passed : Verdict → Bool
is_passed passed = true
is_passed _ = false

-- The size of `new Set(names)`.
unfoldable pub distinct : List String → List String
distinct [] = []
distinct (n ∷ ns) = if any (λ m. m == n) ns then distinct ns else n ∷ distinct ns

-- `=== true` on the field `pass` of the router's answer; it fails closed.
abbrev pub says_pass : Option (Option Bool) → Bool
says_pass (some (some true)) = true
says_pass _ = false

-- `Buffer.equals` by `timingSafeEqual`.
unfoldable pub same_bytes : List ℕ → List ℕ → Bool
same_bytes [] [] = true
same_bytes (a ∷ as_) (b ∷ bs) = a == b && same_bytes as_ bs
same_bytes _ _ = false

module _ {W : Type 0} (services : Services W) where
  open services use {sha, receipt_mac, from_hex, digests_text, decide}

  abbrev pub artifact_checks : Artifact → List CheckResult
  artifact_checks a =
      record { check_name = "sha256"; pass = sha a.content == a.sha256; detail = a.name }
      ∷ record {
        check_name = "secret-scan";
        pass = not (has_secret a.content);
        detail = "Content withheld";
      }
      ∷ record {
        check_name = "policy-scan";
        pass = not (policy_violation a.content);
        detail = "Added command scan";
      }
      ∷ []

  -- The loop over the artifacts.
  unfoldable pub all_artifact_checks : List Artifact → List CheckResult
  all_artifact_checks [] = []
  all_artifact_checks (a ∷ rest) = artifact_checks a ++ all_artifact_checks rest

  unfoldable pub own_checks : CheckRequest → List CheckResult
  unfolding distinct
  own_checks request =
      record {
        check_name = "unique-artifacts";
        pass = length (distinct (map (λ a. a.name) request.artifacts)) == length request.artifacts;
        detail = "Artifact names";
      }
      ∷ all_artifact_checks request.artifacts

  abbrev pub digests : List Artifact → List (String × String)
  digests artifacts = map (λ a. (a.name, sha a.content)) artifacts

  abbrev pub unsigned_receipt :
      String → ℕ → CheckRequest → List CheckResult → Option String → Unsigned
  unsigned_receipt uuid now request checks model = record {
    receipt_id = uuid;
    job_id = request.job_id;
    artifact_digests = digests request.artifacts;
    checks = checks;
    verdict = if every checks then passed else failed;
    at = now;
    checker_model = model;
  }

  abbrev pub receipt : String → ℕ → CheckRequest → List CheckResult → Option String → Receipt
  receipt uuid now request checks model = record {
    unsigned = unsigned_receipt uuid now request checks model;
    mac = receipt_mac (unsigned_receipt uuid now request checks model);
  }

  -- The rest of `check`, with the router's answer.
  abbrev pub reviewed :
      String → ℕ → CheckRequest → List CheckResult → Outcome W Decision → Outcome W Receipt
  reviewed uuid now request checks (throws e w) = throws e w
  reviewed uuid now request checks (returns d w) =
      returns
        (receipt uuid now request
          (checks
            ++ record {
              check_name = "router";
              pass = says_pass d.output;
              detail = "Independent review";
            }
              ∷ [])
          (some d.resolved_model))
        w

  abbrev pub reviewed_by :
      Option (CheckRequest → Act W Decision) → String → ℕ → CheckRequest → Act W Receipt
  reviewed_by none uuid now request w =
      returns (receipt uuid now request (own_checks request) none) w
  reviewed_by (some d) uuid now request w =
      if every (own_checks request)
      then reviewed uuid now request (own_checks request) (d request w)
      else returns (receipt uuid now request (own_checks request) none) w

  unfoldable pub check : (uuid : String) (now : ℕ) → CheckRequest → Act W Receipt
  check uuid now request w = reviewed_by decide uuid now request w

  abbrev pub is_empty : List CheckResult → Bool
  is_empty [] = true
  is_empty (_ ∷ _) = false

  abbrev pub receipt_matches : String → List Artifact → Receipt → Bool
  receipt_matches job_id artifacts r =
      if r.unsigned.job_id != job_id
        || not (is_passed r.unsigned.verdict)
        || is_empty r.unsigned.checks
        || any (λ c. not c.pass) r.unsigned.checks
      then false
      else same_bytes (from_hex r.mac) (from_hex (receipt_mac r.unsigned))
        && digests_text r.unsigned.artifact_digests == digests_text (digests artifacts)
        && all (λ a. sha a.content == a.sha256) artifacts

  unfoldable pub is_done : String → List Artifact → Option Receipt → Bool
  is_done job_id artifacts none = false
  is_done job_id artifacts (some r) = receipt_matches job_id artifacts r
