-- ===== src/Guards/Freshness.antt =====
-- archive/rust/src/guards/freshness.rs
use nordfir.Base.{Bool, true, false, Option, none, some, List, [], ◌∷◌, ◌++◌, Text, str}
use nordfir.Base.Time.{SystemTime, Duration}
use nordfir.Core.{NodeSnapshot, is_fresh}
use nordfir.Action.{ActionRisk, recoverable}
use nordfir.Guards.{Guard, GuardVerdict, GuardOutcome, GuardSeverity, verdict}

abbrev pub freshness_name : Text
freshness_name = str "observation-freshness"

abbrev answer : GuardOutcome → Text → GuardVerdict
answer = verdict GuardSeverity.critical freshness_name

-- `checks.into_iter().find(|(_, fresh)| !*fresh)`
find_stale : List (Text × Bool) → Option Text
find_stale [] = none
find_stale ((name, true) ∷ checks) = find_stale checks
find_stale ((name, false) ∷ checks) = some name

report : Option Text → GuardVerdict
report none = answer GuardOutcome.allow (str "Safety-critical observations are fresh")
report (some name) = answer GuardOutcome.block (name ++ str " observation is stale")

module _ {F : Type 0} (max_age : Duration) where
  checks : SystemTime → NodeSnapshot F → List (Text × Bool)
  checks now s =
      (str "power mode", is_fresh s.power_mode now max_age)
      ∷ (str "reachability", is_fresh s.reachable now max_age)
      ∷ (str "SSH sessions", is_fresh s.active_ssh_sessions now max_age)
      ∷ []

  judge : ActionRisk → SystemTime → NodeSnapshot F → GuardVerdict
  judge recoverable now s =
      answer GuardOutcome.allow
        (str "Recoverable action does not require destructive-action freshness")
  judge _ now s = report (find_stale (checks now s))

  unfoldable pub freshness_guard : Guard F
  unfolding judge report find_stale checks
  freshness_guard = record { name = freshness_name; evaluate = λ now s a. judge a.risk now s }
