-- ===== src/Preflight.antt =====
-- archive/rust/src/preflight/mod.rs: the readiness report and its checks.
pub mod Readiness
use nordfir.Base.{
  ◌≡◌, Bool, true, false, not, ◌&&◌, List, [], ◌∷◌, ◌++◌, Text, str, text_eq, join_texts, length,
  is_empty, all, Result, ok, err, ◌>>=◌, ◌>>◌, refuse, if◌then◌else◌,
}
use nordfir.Format.{decimal}
use nordfir.Energy.RestPlan.{RestPlanStatus, RestChangePlan}

pub data ReadinessStatus : Type 0 where
  ready blocked : ReadinessStatus

pub record ReadinessCheck : Type 0 where
  pub name : Text
  pub status : ReadinessStatus
  pub detail : Text

pub record DeploymentPreflightReport : Type 0 where
  pub checks : List ReadinessCheck

abbrev pub empty_report : DeploymentPreflightReport
empty_report = record { checks = [] }

unfoldable pub readiness_check : Text → Result Text → ReadinessCheck
readiness_check name (ok detail) = record {
  name = name;
  status = ReadinessStatus.ready;
  detail = detail;
}
readiness_check name (err detail) = record {
  name = name;
  status = ReadinessStatus.blocked;
  detail = detail;
}

unfoldable pub add_check :
    DeploymentPreflightReport → Text → Result Text → DeploymentPreflightReport
add_check report name result = record { checks = report.checks ++ readiness_check name result ∷ [] }

-- `check.status == ReadinessStatus::Ready`
unfoldable pub passes : ReadinessCheck → Bool
passes check = elim check.status [ ReadinessStatus.ready ↦ true | ReadinessStatus.blocked ↦ false ]

unfoldable pub is_ready : DeploymentPreflightReport → Bool
is_ready report = not (is_empty report.checks) && all passes report.checks

unfoldable pub verify_expected_host : Text → Text → Result Text
verify_expected_host expected observed = do
  refuse (is_empty expected) (str "expected hostname is empty")
  refuse (is_empty observed) (str "observed hostname is empty")
  if text_eq observed expected
      then ok (str "matched '" ++ observed ++ str "'")
      else err (str "expected '" ++ expected ++ str "' but observed '" ++ observed ++ str "'")

unfoldable pub evaluate_status :
    {F : Type 0} → RestPlanStatus → RestChangePlan F → Bool → Result Text
evaluate_status RestPlanStatus.blocked plan writable = err (join_texts (str "; ") plan.blockers)
evaluate_status RestPlanStatus.no_changes plan writable = ok (str "ready; no changes required")
evaluate_status RestPlanStatus.ready plan true =
    ok (str "ready with " ++ decimal (length plan.changes) ++ str " change(s)")
evaluate_status RestPlanStatus.ready plan false =
    err (str "planned changes require writable cpufreq controls")

unfoldable pub evaluate_rest_plan : {F : Type 0} → RestChangePlan F → Bool → Result Text
evaluate_rest_plan plan writable = evaluate_status plan.status plan writable
