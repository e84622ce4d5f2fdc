-- ===== src/Guards/SshSession.antt =====
-- archive/rust/src/guards/ssh_session.rs
use nordfir.Base.{ℕ, zero, suc, ◌++◌, Text, str}
use nordfir.Format.{decimal}
use nordfir.Core.{ObservationValue, known, NodeSnapshot}
use nordfir.Action.{ActionKind, shutdown_node}
use nordfir.Guards.{Guard, GuardVerdict, GuardOutcome, GuardSeverity, verdict}

abbrev pub ssh_name : Text
ssh_name = str "ssh-session"

abbrev answer : GuardOutcome → Text → GuardVerdict
answer = verdict GuardSeverity.hard ssh_name

unfoldable pub judge_sessions : ObservationValue ℕ → GuardVerdict
judge_sessions (known zero) = answer GuardOutcome.allow (str "No active SSH sessions")
judge_sessions (known (suc n)) =
    answer GuardOutcome.block (decimal (suc n) ++ str " active SSH session(s)")
judge_sessions (ObservationValue.unknown reason) =
    answer GuardOutcome.block (str "SSH session state is not safely known: " ++ reason)
judge_sessions (ObservationValue.unavailable reason) =
    answer GuardOutcome.block (str "SSH session state is not safely known: " ++ reason)

module _ {F : Type 0} where
  judge : ActionKind → NodeSnapshot F → GuardVerdict
  judge (shutdown_node _) snapshot = judge_sessions snapshot.active_ssh_sessions.value
  judge _ snapshot = answer GuardOutcome.allow (str "Action does not power down the node")

  unfoldable pub ssh_session_guard : Guard F
  unfolding judge
  ssh_session_guard = record { name = ssh_name; evaluate = λ now s a. judge a.kind s }
