-- ===== src/Authority.antt =====
-- archive/rust/src/authority: capabilities, and the policy that decides a request.
use nordfir.Base.{ℕ, Bool, false, ◌||◌, List, [], ◌∷◌, ◌++◌, Text, str, ◌==◌, if◌then◌else◌}

pub data Capability : Type 0 where
  observe optimize_power control_approved_services suspend_node shutdown_node : Capability
  reboot_node edit_timing edit_protection_rules override_guard manage_authority : Capability

pub data AuthenticationFactor : Type 0 where
  master_secret recovery_phrase totp hardware_key : AuthenticationFactor

pub record AuthorizationRequest : Type 0 where
  pub actor : Text
  pub capability : Capability
  pub reason : Text
  pub requested_factors : List AuthenticationFactor

pub data AuthorizationDecision : Type 0 where
  allow : AuthorizationDecision
  deny : Text → AuthorizationDecision
  challenge : List AuthenticationFactor → AuthorizationDecision

-- The trait.
pub record AuthorityGate : Type 0 where
  pub authorize : AuthorizationRequest → AuthorizationDecision

pub record AuthorityPolicy : Type 0 where
  pub granted : List Capability
  pub require_step_up_for : List Capability

abbrev pub observe_only : AuthorityPolicy
observe_only = record { granted = Capability.observe ∷ []; require_step_up_for = [] }

abbrev pub optimization_only : AuthorityPolicy
optimization_only = record {
  granted = Capability.observe ∷ Capability.optimize_power ∷ [];
  require_step_up_for = [];
}

-- The place in the declaration, by which the derived order compares.
unfoldable pub rank : Capability → ℕ
rank Capability.observe = 0
rank Capability.optimize_power = 1
rank Capability.control_approved_services = 2
rank Capability.suspend_node = 3
rank Capability.shutdown_node = 4
rank Capability.reboot_node = 5
rank Capability.edit_timing = 6
rank Capability.edit_protection_rules = 7
rank Capability.override_guard = 8
rank Capability.manage_authority = 9

-- `BTreeSet::contains`
unfoldable pub contains : List Capability → Capability → Bool
unfolding rank
contains [] c = false
contains (d ∷ ds) c = rank d == rank c || contains ds c

-- `{:?}`
unfoldable pub debug : Capability → Text
debug Capability.observe = str "Observe"
debug Capability.optimize_power = str "OptimizePower"
debug Capability.control_approved_services = str "ControlApprovedServices"
debug Capability.suspend_node = str "SuspendNode"
debug Capability.shutdown_node = str "ShutdownNode"
debug Capability.reboot_node = str "RebootNode"
debug Capability.edit_timing = str "EditTiming"
debug Capability.edit_protection_rules = str "EditProtectionRules"
debug Capability.override_guard = str "OverrideGuard"
debug Capability.manage_authority = str "ManageAuthority"

-- `PolicyAuthorityGate::authorize`
unfoldable pub authorize : AuthorityPolicy → AuthorizationRequest → AuthorizationDecision
authorize policy request =
    if contains policy.granted request.capability
    then (if contains policy.require_step_up_for request.capability
        then AuthorizationDecision.challenge (AuthenticationFactor.master_secret ∷ [])
        else AuthorizationDecision.allow)
    else AuthorizationDecision.deny
        (str "capability " ++ debug request.capability ++ str " is not granted")

unfoldable pub policy_gate : AuthorityPolicy → AuthorityGate
policy_gate policy = record { authorize = authorize policy }
