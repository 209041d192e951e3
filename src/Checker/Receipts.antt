-- ===== src/Checker/Receipts.antt =====
-- Receipts of src/agent/checker/checker.ts and the gate of src/agent/checker/gate.ts.
use cli_model_gateway.Base.{
  ℕ, ◌≡◌, refl, ap, ◌∙◌, subst, String, Bool, true, false, not, ◌&&◌, Option, none, some, [], ◌∷◌,
  ◌++◌, map, List, arith, ◌==◌, ==_iff, ==_refl, if◌then◌else◌, Outcome, Act, returns, throws,
  Bool-cases, inl, inr, nat_eq, string_eq, length, any, all, All,
}
use cli_model_gateway.Checker.Secrets.{has_secret}
use cli_model_gateway.Checker.Commands.{policy_violation}
use cli_model_gateway.Checker.Check.{
  Artifact, CheckRequest, CheckResult, Verdict, passed, failed, Receipt, Decision, Services, every,
  is_passed, distinct, says_pass, same_bytes, all_artifact_checks, own_checks, digests, receipt,
  reviewed, reviewed_by, check, is_empty, receipt_matches, is_done,
}

same_bytes_refl : (s : List ℕ) → same_bytes s s ≡ true
unfolding same_bytes
same_bytes_refl [] = refl
same_bytes_refl (c ∷ s) = ground (arith, same_bytes_refl s, ==_refl c)

every-append : (a b : List CheckResult) → every (a ++ b) ≡ (every a && every b)
every-append [] b = refl
every-append (c ∷ a) b = ground (arith, every-append a b)

any-every : (a : List CheckResult) → any (λ c. not c.pass) a ≡ not (every a)
any-every [] = refl
any-every (c ∷ a) = ground (arith, any-every a)

says_pass_iff : (o : Option (Option Bool)) → says_pass o ≡ true → o ≡ some (some true)
says_pass_iff none h = absurd (cc)
says_pass_iff (some none) h = absurd (cc)
says_pass_iff (some (some true)) h = refl
says_pass_iff (some (some false)) h = absurd (cc)

module _ {W : Type 0} (services : Services W) where
  open services use {sha, receipt_mac, from_hex, digests_text, decide}

  -- An artifact with the right digest, without a secret and without a forbidden command.
  abbrev pub IsCleanArtifact : Artifact → Type 0
  IsCleanArtifact a =
      (sha a.content ≡ a.sha256)
      × (has_secret a.content ≡ false)
      × (policy_violation a.content ≡ false)

  all_artifact_checks-IsClean :
      (as_ : List Artifact)
      → every (all_artifact_checks services as_) ≡ true
      → All IsCleanArtifact as_
  unfolding all_artifact_checks
  all_artifact_checks-IsClean [] h = tt
  all_artifact_checks-IsClean (a ∷ rest) h = (
    (ground (arith, ==_iff (sha a.content) a.sha256), ground arith, ground arith),
    all_artifact_checks-IsClean rest (ground arith),
  )

  abbrev pub IsClean : CheckRequest → Type 0
  IsClean request =
      (length (distinct (map (λ a. a.name) request.artifacts)) ≡ length request.artifacts)
      × All IsCleanArtifact request.artifacts

  own_checks-IsClean :
      (request : CheckRequest) → every (own_checks services request) ≡ true → IsClean request
  unfolding own_checks
  own_checks-IsClean request h = (
    ground (
      arith,
      ==_iff (length (distinct (map (λ (a : Artifact). a.name) request.artifacts)))
          (length request.artifacts),
    ),
    all_artifact_checks-IsClean request.artifacts (ground arith),
  )

  -- What a receipt of `check` is made of.
  record Made (uuid : String) (now : ℕ) (request : CheckRequest) (w : W) (r : Receipt) (w' : W)
      : Type 0 where
    pub checks : List CheckResult
    pub model : Option String
    pub is : receipt services uuid now request checks model ≡ r
    pub some_checks : is_empty services checks ≡ false
    pub own : every checks ≡ true → every (own_checks services request) ≡ true
    pub review :
        (d : CheckRequest → Act W Decision)
        → decide ≡ some d
        → every checks ≡ true
        → (a : Decision) × (d request w ≡ returns a w') × (a.output ≡ some (some true))

  own_checks_some :
      (request : CheckRequest) → is_empty services (own_checks services request) ≡ false
  unfolding own_checks
  own_checks_some request = refl

  reviewed-Made :
      (uuid : String) (now : ℕ) (request : CheckRequest) (d : CheckRequest → Act W Decision)
      (w w' : W) (r : Receipt) (o : Outcome W Decision)
      → decide ≡ some d
      → d request w ≡ o
      → reviewed services uuid now request (own_checks services request) o ≡ returns r w'
      → Made uuid now request w r w'
  reviewed-Made uuid now request d w w' r (throws e x) s o h = absurd (cc)
  reviewed-Made uuid now request d w w' r (returns a x) s o h = record {
    checks = own_checks services request ++ last ∷ [];
    model = some a.resolved_model;
    is = ground arith;
    some_checks = unfold own_checks in refl;
    own = λ e. ground (arith, every-append (own_checks services request) (last ∷ []));
    review = λ d' s' e.
        let same : d ≡ d' = ground arith in
        let ended : x ≡ w' = ground arith in
        (
          a,
          rw (← same, ← ended) o,
          says_pass_iff a.output
              (ground (arith, every-append (own_checks services request) (last ∷ []))),
        );
  }
    where
      last : CheckResult
      last = record {
        check_name = "router";
        pass = says_pass a.output;
        detail = "Independent review";
      }

  check-Made :
      (uuid : String) (now : ℕ) (request : CheckRequest) (w w' : W) (r : Receipt)
      → check services uuid now request w ≡ returns r w'
      → Made uuid now request w r w'
  unfolding check
  check-Made uuid now request w w' r h = go decide refl h
    where
      unreviewed :
          ((d : CheckRequest → Act W Decision)
            → decide ≡ some d
            → every (own_checks services request) ≡ false)
          → returns (receipt services uuid now request (own_checks services request) none) w
            ≡ returns r w'
          → Made uuid now request w r w'
      unreviewed never e = record {
        checks = own_checks services request;
        model = none;
        is = ground arith;
        some_checks = own_checks_some request;
        own = λ y. y;
        review = λ d s y. absurd (ground (arith, never d s));
      }

      go :
          (o : Option (CheckRequest → Act W Decision))
          → decide ≡ o
          → reviewed_by services o uuid now request w ≡ returns r w'
          → Made uuid now request w r w'
      go none s e = unreviewed (λ d s'. absurd (cc)) e
      go (some d) s e = asked (every (own_checks services request)) refl e
        where
          asked :
              (b : Bool)
              → every (own_checks services request) ≡ b
              → (if b
                  then reviewed services uuid now request
                      (own_checks services request)
                      (d request w)
                  else returns
                      (receipt services uuid now request (own_checks services request) none)
                      w)
                ≡ returns r w'
              → Made uuid now request w r w'
          asked true y f = reviewed-Made uuid now request d w w' r (d request w) s refl f
          asked false n f = unreviewed (λ d' s'. n) f

  verdict-passed : (b : Bool) → (if b then passed else failed) ≡ passed → b ≡ true
  verdict-passed true h = refl
  verdict-passed false h = absurd (cc)

  -- If `check` returns a receipt with the verdict "pass", then the names of the artifacts are
  -- distinct, each artifact has the digest it claims, no secret and no forbidden command, and a
  -- router that is there was asked and answered `true`.
  pub check-passed :
      (uuid : String) (now : ℕ) (request : CheckRequest) (w w' : W) (r : Receipt)
      → check services uuid now request w ≡ returns r w'
      → r.unsigned.verdict ≡ passed
      → IsClean request
        × ((d : CheckRequest → Act W Decision)
            → decide ≡ some d
            → (a : Decision) × (d request w ≡ returns a w') × (a.output ≡ some (some true)))
  check-passed uuid now request w w' r h v =
      let m = check-Made uuid now request w w' r h in
      let good : every m.checks ≡ true =
        verdict-passed (every m.checks) (ap (λ (x : Receipt). x.unsigned.verdict) m.is ∙ v) in
      (own_checks-IsClean request (m.own good), λ d s. m.review d s good)

  matches_own :
      (uuid : String) (now : ℕ) (request : CheckRequest) (checks : List CheckResult)
      (model : Option String)
      → is_empty services checks ≡ false
      → (every checks ≡ true → IsClean request)
      → receipt_matches services request.job_id request.artifacts
          (receipt services uuid now request checks model)
        ≡ every checks
  matches_own uuid now request checks model full clean = elim (Bool-cases (every checks)) [
    | inr n ↦ rw n (ground (arith, any-every checks))
    | inl y ↦
        let right = all_right request.artifacts (clean y).1 in
        rw y (
          ground (
            arith,
            ==_refl request.job_id,
            any-every checks,
            same_bytes_refl (from_hex (receipt services uuid now request checks model).mac),
            ==_refl (digests_text (digests services request.artifacts)),
          ))
  ]
    where
      all_right :
          (as_ : List Artifact)
          → All IsCleanArtifact as_
          → all (λ a. sha a.content == a.sha256) as_ ≡ true
      all_right [] c = refl
      all_right (a ∷ rest) ((d, _, _), cs) =
          ground (arith, all_right rest cs, ==_iff (sha a.content) a.sha256)

  -- The gate opens for the checked artifacts with the receipt of `check` exactly when the verdict is
  -- "pass".
  pub check-is_done :
      (uuid : String) (now : ℕ) (request : CheckRequest) (w w' : W) (r : Receipt)
      → check services uuid now request w ≡ returns r w'
      → is_done services request.job_id request.artifacts (some r) ≡ is_passed r.unsigned.verdict
  unfolding is_done
  check-is_done uuid now request w w' r h =
      let m = check-Made uuid now request w w' r h in
      let one =
        matches_own uuid now request m.checks m.model m.some_checks
          (λ e. own_checks-IsClean request (m.own e)) in
      subst
        (λ x.
          receipt_matches services request.job_id request.artifacts x
          ≡ is_passed x.unsigned.verdict)
        m.is (one ∙ two (every m.checks))
    where
      two : (b : Bool) → b ≡ is_passed (if b then passed else failed)
      two true = refl
      two false = refl

  -- What an open gate tells, wherever the receipt comes from: it is for this job, it has passed with
  -- checks that all passed, its code is the keyed hash of its text, its digests are those of the
  -- artifacts as they are now, and every artifact has the digest it claims.
  pub is_done_holds :
      (job_id : String) (artifacts : List Artifact) (r : Receipt)
      → is_done services job_id artifacts (some r) ≡ true
      → (r.unsigned.job_id ≡ job_id)
        × (r.unsigned.verdict ≡ passed)
        × (every r.unsigned.checks ≡ true)
        × (same_bytes (from_hex r.mac) (from_hex (receipt_mac r.unsigned)) ≡ true)
        × (digests_text r.unsigned.artifact_digests ≡ digests_text (digests services artifacts))
        × All (λ a. sha a.content ≡ a.sha256) artifacts
  unfolding is_done
  is_done_holds job_id artifacts r h = (
    ground (arith, ==_iff r.unsigned.job_id job_id),
    is_passed_iff r.unsigned.verdict (ground arith),
    ground (arith, any-every r.unsigned.checks),
    ground arith,
    ground (
      arith,
      ==_iff (digests_text r.unsigned.artifact_digests) (digests_text (digests services artifacts)),
    ),
    each artifacts (ground arith),
  )
    where
      is_passed_iff : (v : Verdict) → is_passed v ≡ true → v ≡ passed
      is_passed_iff passed e = refl
      is_passed_iff failed e = absurd (cc)
      is_passed_iff _ e = absurd (cc)

      each :
          (as_ : List Artifact)
          → all (λ a. sha a.content == a.sha256) as_ ≡ true
          → All (λ a. sha a.content ≡ a.sha256) as_
      each [] e = tt
      each (a ∷ rest) e =
          (ground (arith, ==_iff (sha a.content) a.sha256), each rest (ground arith))
