-- ===== src/Preflight/Readiness.antt =====
-- preflight/mod.rs: when the report is ready.
use nordfir.Base.{
  ◌≡◌, refl, ◌≢◌, ◌↔◌, true, false, ◌&&◌, List, [], ◌∷◌, ◌++◌, Text, text_eq_iff, is_empty, all,
  all_iff, all-append, All, Result, ok, err, is_ok, arith,
}
use nordfir.Preflight.{
  ReadinessCheck, DeploymentPreflightReport, empty_report, readiness_check, add_check, passes,
  is_ready, verify_expected_host,
}

passes-readiness_check : (name : Text) (r : Result Text) → passes (readiness_check name r) ≡ is_ok r
unfolding passes readiness_check
passes-readiness_check name (ok d) = refl
passes-readiness_check name (err d) = refl

-- The report of the checks recorded one after the other.
abbrev pub report_of :
    List (Text × Result Text) → DeploymentPreflightReport → DeploymentPreflightReport
report_of [] report = report
report_of ((name, r) ∷ more) report = report_of more (add_check report name r)

all-report_of :
    (results : List (Text × Result Text)) (report : DeploymentPreflightReport)
    → all passes (report_of results report).checks
      ≡ (all passes report.checks && all (λ x. is_ok x.1) results)
unfolding add_check
all-report_of [] report = ground arith
all-report_of ((name, r) ∷ more) report =
    let rest = all-report_of more (add_check report name r) in
    let step = all-append passes report.checks (readiness_check name r ∷ []) in
    let one = passes-readiness_check name r in ground arith

nonempty-report_of :
    (results : List (Text × Result Text)) (report : DeploymentPreflightReport)
    → is_empty (report_of results report).checks ≡ (is_empty report.checks && is_empty results)
unfolding add_check
nonempty-report_of [] report = ground arith
nonempty-report_of ((name, r) ∷ more) report =
    let rest = nonempty-report_of more (add_check report name r) in
    let step = is_empty-append report.checks (readiness_check name r) in ground arith
  where
    is_empty-append :
        (xs : List ReadinessCheck) (x : ReadinessCheck) → is_empty (xs ++ x ∷ []) ≡ false
    is_empty-append [] x = refl
    is_empty-append (y ∷ xs) x = refl

-- A report into which checks were recorded one after the other is ready exactly when there is a
-- check and all of them passed.
pub is_ready_iff :
    (results : List (Text × Result Text))
    → (is_ready (report_of results empty_report) ≡ true)
      ↔ ((results ≢ []) × All (λ x. is_ok x.1 ≡ true) results)
unfolding is_ready
is_ready_iff [] = (λ h. cc, λ (d, _). absurd (d refl))
is_ready_iff (x ∷ xs) =
    let passed = all-report_of (x ∷ xs) empty_report in
    let some_check = nonempty-report_of (x ∷ xs) empty_report in
    let (to, back) = all_iff (λ (y : Text × Result Text). is_ok y.1) (x ∷ xs) in
    (λ h. ((λ e. cc), to (ground arith)), λ (_, h). let good = back h in ground arith)

-- The host check passes exactly when the two names are one name that is not empty.
verify_expected_host_iff :
    (expected observed : Text)
    → (is_ok (verify_expected_host expected observed) ≡ true)
      ↔ ((observed ≡ expected) × (expected ≢ []))
unfolding verify_expected_host
verify_expected_host_iff [] [] = (λ h. cc, λ (_, d). absurd (d refl))
verify_expected_host_iff [] (c ∷ t) = (λ h. cc, λ (_, d). absurd (d refl))
verify_expected_host_iff (c ∷ t) [] = (λ h. cc, λ h. cc)
verify_expected_host_iff (c ∷ t) (d ∷ u) =
    let same = text_eq_iff (d ∷ u) (c ∷ t) in
    (λ h. (ground arith, λ e. cc), λ (e, _). rw (same.1 e))
