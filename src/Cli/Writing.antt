-- ===== src/Cli/Writing.antt =====
-- main.rs: the commands that write, save-original-state-local, apply-rest-local and
-- restore-active-local.
use nordfir.Base.{
  Bool, true, false, Option, none, some, List, [], ◌∷◌, ◌++◌, ◌*◌, Text, str, Result, ok, err,
}
use nordfir.Base.Io.{Io, lift, ◌>>=◌, ◌>>◌}
use nordfir.Base.Time.{from_secs}
use nordfir.Float.{F32}
use nordfir.Format.{FilePath}
use nordfir.Energy.Capabilities.{rest_default}
use nordfir.Energy.RestPlan.{RestChangePlan, RestPlanStatus, default_planner, plan}
use nordfir.State.OriginalPower.{OriginalPowerState, capture}
use nordfir.State.Store.{load_for_write, load_fresh_for_write}
use nordfir.State.Store.Operations.{save, retire}
use nordfir.State.PowerProbe.{probe}
use nordfir.Drivers.LinuxRest.Apply.{apply}
use nordfir.Drivers.LinuxRest.Restore.{restore_active}
use nordfir.Audit.{AuditEventKind, AuditSink}
use nordfir.Host.{Host, print_lines}
use nordfir.Cli.{
  local_node, sysfs_root, kernel, audit_sink, record_audit, finish_audited,
  require_write_confirmation, required_state_directory,
}
use nordfir.Cli.Printing.{original_state_lines, rest_plan_lines, applied_lines, restored_lines}

-- A command that may panic: `none` is the panic.
abbrev pub Run : Type 0 → Type 0 → Type 0
Run S A = S → Option (Result A) × S

abbrev pub returns : {S A : Type 0} → Io S A → Run S A
returns m s = let (r, s') = m s in (some r, s')

abbrev pub query : {S A : Type 0} → (S → Result A) → Io S A
query f s = (f s, s)

abbrev pub is_ready_status : RestPlanStatus → Bool
is_ready_status RestPlanStatus.ready = true
is_ready_status _ = false

module _ {S : Type 0} (host : Host S) where
  abbrev pub say : List Text → Io S (Unit {0})
  say lines s = (ok tt, print_lines host lines s)

  -- What follows the operation that an intent was recorded for. A panic goes past it.
  unfoldable pub settle :
      AuditSink S → Text → Option (Result (Unit {0})) × S → Option (Result (Unit {0})) × S
  settle audit operation (none, s) = (none, s)
  settle audit operation (some r, s) = returns (finish_audited host audit operation r) s

  unfoldable pub after_intent :
      AuditSink S → Text → Run S (Unit {0}) → Result (Unit {0}) × S → Option (Result (Unit {0})) × S
  after_intent audit operation op (err e, s) = (some (err e), s)
  after_intent audit operation op (ok _, s) = settle audit operation (op s)

  -- The intent is recorded, the operation runs, and its outcome is recorded.
  unfoldable pub audited : Text → Text → AuditSink S → Run S (Unit {0}) → Run S (Unit {0})
  audited request operation audit op s =
      after_intent audit operation op
        (record_audit host audit AuditEventKind.intent_received request s)

  -- What a command that writes asks for before it does anything.
  unfoldable pub permitted : Text → Result (FilePath × AuditSink S)
  permitted command = elim (required_state_directory host command) [
    | err e ↦ err e
    | ok directory ↦ elim (require_write_confirmation host command) [
      | err e ↦ err e
      | ok _ ↦ elim (audit_sink host directory) [ err e ↦ err e | ok audit ↦ ok (directory, audit) ]
    ]
  ]

  unfoldable pub when_permitted :
      Result (FilePath × AuditSink S)
      → (FilePath → AuditSink S → Run S (Unit {0}))
      → Run S (Unit {0})
  when_permitted (err e) command s = (some (err e), s)
  when_permitted (ok (directory, audit)) command s = command directory audit s

module _ {S : Type 0} (F : Type 0) ⦃f : F32 F⦄ (host : Host S) where
  unfoldable pub save_captured : FilePath → Result (OriginalPowerState F) → Io S (Unit {0})
  save_captured directory captured = do
    state ← lift captured
    path ← save host.files directory state
    say host (original_state_lines state)
    say host ((str "Saved state: " ++ path) ∷ str "No system power settings were changed." ∷ [])

  -- The branch of save-original-state-local. The interfaces are probed before the clock is read.
  unfoldable pub save_original_state : FilePath → Io S (Unit {0})
  save_original_state directory s =
      save_captured directory (capture local_node (probe host.files sysfs_root s) (host.now s).0)
        (host.now s).1

  unfoldable pub save_original_state_local : Io S (Unit {0})
  save_original_state_local =
      lift (required_state_directory host (str "save-original-state-local")) >>= save_original_state

  module _ (directory : FilePath) where
    unfoldable pub apply_planned : OriginalPowerState F → RestChangePlan F → Io S (Unit {0})
    apply_planned original rest_plan = do
      say host (rest_plan_lines rest_plan (is_ready_status rest_plan.status))
      report ← apply (kernel host.files) sysfs_root original rest_plan
      say host (applied_lines report)

    unfoldable pub apply_if_planned :
        OriginalPowerState F → Option (RestChangePlan F) → Run S (Unit {0})
    apply_if_planned original none s = (none, s)
    apply_if_planned original (some rest_plan) s = returns (apply_planned original rest_plan) s

    unfoldable pub apply_loaded : Result (OriginalPowerState F) → Run S (Unit {0})
    apply_loaded (err e) s = (some (err e), s)
    apply_loaded (ok original) s =
        apply_if_planned original
          (plan default_planner (probe host.files sysfs_root s) rest_default) s

    -- The closure of apply-rest-local.
    unfoldable pub apply_operation : Run S (Unit {0})
    apply_operation s =
        apply_loaded
          (load_fresh_for_write host.files directory local_node (host.now s).0 (from_secs (15 * 60))
            (host.now s).1)
          (host.now s).1

    unfoldable pub restore_settings : OriginalPowerState F → Io S (Unit {0})
    restore_settings original s =
        (do
          say host (original_state_lines original)
          report ←
              restore_active (kernel host.files) sysfs_root original (probe host.files sysfs_root s)
          say host (restored_lines report))
          s

    module _ (audit : AuditSink S) where
      unfoldable pub archive_snapshot : Io S (Unit {0})
      archive_snapshot = do
        archived ← retire host.files F directory local_node
        record_audit host audit AuditEventKind.recovery_state_retired
            (str "recovery snapshot archived at " ++ archived)
        say host ((str "Archived recovery state: " ++ archived) ∷ [])

      -- The closure of restore-active-local.
      unfoldable pub restore_operation : Io S (Unit {0})
      restore_operation = do
        original ← query (load_for_write host.files directory local_node)
        restore_settings original
        archive_snapshot

  unfoldable pub apply_rest_local : Run S (Unit {0})
  apply_rest_local =
      when_permitted host (permitted host (str "apply-rest-local")) λ directory audit.
        audited host (str "REST apply requested") (str "REST apply") audit
          (apply_operation directory)

  unfoldable pub restore_active_local : Run S (Unit {0})
  restore_active_local =
      when_permitted host (permitted host (str "restore-active-local")) λ directory audit.
        audited host (str "ACTIVE restore requested") (str "ACTIVE restore") audit
          (returns (restore_operation directory audit))
