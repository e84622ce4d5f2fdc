-- ===== src/Tests/Commands.antt =====
-- The commands that write at concrete disks.
use nordfir.Base.{◌≡◌, refl, inr, none, some, [], Text, str, Result, ok, err}
use nordfir.Format.{FilePath}
use nordfir.State.Store.{state_path}
use nordfir.State.Store.Saved.{Holds}
use nordfir.Audit.Sinks.Appended.{LogHolds}
use nordfir.Cli.{audit_log, local_node, audit_sink, finish_audited}
use nordfir.Cli.Writing.{apply_operation, restore_operation, apply_rest_local, restore_active_local}
use nordfir.Cli.RestoreLocal.{IsRecovered, restore_local_success}
use nordfir.Cli.Intent.{OthersKept}
use nordfir.Cli.Outcome.{IsFinished, finish_audited_outcome}
use nordfir.Audit.Sinks.{record_file}
use nordfir.Cli.ApplyLocal.{IsEconomized, apply_local_success}
use nordfir.Tests.Milli.{Milli, milli}
use nordfir.Tests.Store.{saved_text}
use nordfir.Tests.Disk.{Disk, disk, disk_documented}
use nordfir.Tests.Host.{host, host_documented, silence_own, machine}

abbrev restoring : Text
restoring = str "restore-active-local"

abbrev applying : Text
applying = str "apply-rest-local"

abbrev resting : Disk
resting = machine saved_text (str "powersave\n") (str "1600000\n")

abbrev awake : Disk
awake = machine saved_text (str "performance\n") (str "4000000\n")

-- Both commands succeed.
runs :
    ((restore_active_local Milli ⦃f = milli⦄ (host restoring) resting).0 ≡ some (ok tt))
    × ((apply_rest_local Milli ⦃f = milli⦄ (host applying) awake).0 ≡ some (ok tt))
unfolding nordfir.Energy.RestPlan.plan nordfir.Energy.RestPlan.settle
    nordfir.Energy.RestPlan.plan_frequency nordfir.Energy.RestPlan.plan_percent
    nordfir.Energy.RestPlan.plan_limits nordfir.Energy.RestPlan.plan_target
    nordfir.Energy.RestPlan.ceiling nordfir.Energy.RestPlan.status_of
    nordfir.Energy.RestPlan.plan_governor nordfir.Energy.RestPlan.plan_current nordfir.Base.text_eq
    nordfir.Base.str nordfir.Energy.RestPlan.is_rest nordfir.Drivers.LinuxRest.Checks.validate_plan
    nordfir.Drivers.LinuxRest.Checks.validate_changes nordfir.Format.Lines.lines
    nordfir.Format.Strings.strip_prefix nordfir.Format.Strings.split_whitespace
    nordfir.Format.Strings.words_from nordfir.Format.Strings.trim nordfir.Format.Strings.trim_end
    nordfir.Format.Strings.trim_start nordfir.Format.Strings.is_whitespace
    nordfir.Format.Strings.keep_word nordfir.Format.Decimal.parse_unsigned
    nordfir.Format.Decimal.parse_digits nordfir.Format.Decimal.parse_radix
    nordfir.Format.Decimal.push_digit nordfir.Format.Decimal.to_digit nordfir.Audit.encode_event
    nordfir.Format.Decimal.decimal nordfir.Core.get nordfir.Core.is_fresh
    nordfir.Cli.Writing.restore_active_local nordfir.Cli.Writing.when_permitted
    nordfir.Cli.Writing.permitted nordfir.Cli.required_state_directory
    nordfir.Cli.require_write_confirmation nordfir.Cli.is_confirmation nordfir.Cli.audit_sink
    nordfir.Cli.configured_forward nordfir.Cli.configured_path nordfir.Cli.configured_receipt
    nordfir.Cli.one_or_all nordfir.Cli.optional_sink nordfir.Cli.Writing.audited
    nordfir.Cli.Writing.after_intent nordfir.Cli.record_audit nordfir.Drivers.LinuxRest.Apply.apply
    nordfir.Drivers.LinuxRest.Apply.apply_status nordfir.Drivers.LinuxRest.Apply.check_plan
    nordfir.Drivers.LinuxRest.Apply.after nordfir.Drivers.LinuxRest.Apply.apply_change
    nordfir.Drivers.LinuxRest.Apply.apply_changes
    nordfir.Drivers.LinuxRest.Checks.verify_original_matches_plan
    nordfir.Drivers.LinuxRest.Checks.verify_live_matches_plan nordfir.Drivers.Transaction.run
    nordfir.Drivers.LinuxRest.cpufreq nordfir.Drivers.LinuxRest.cpufreq_path
    nordfir.Drivers.LinuxRest.governor_file nordfir.Drivers.LinuxRest.max_freq_file
    nordfir.Drivers.LinuxRest.min_freq_file nordfir.Drivers.LinuxRest.approximately_equal
    nordfir.Drivers.LinuxRest.read_trimmed nordfir.Drivers.LinuxRest.verify_text
    nordfir.Drivers.LinuxRest.write_then nordfir.Drivers.LinuxRest.write_and_verify_text
    nordfir.Drivers.LinuxRest.read_frequency nordfir.Drivers.LinuxRest.verify_frequency
    nordfir.Drivers.LinuxRest.write_and_verify_frequency nordfir.Format.join
    nordfir.Format.with_separator nordfir.Drivers.LinuxRest.Restore.restore_active
    nordfir.Drivers.LinuxRest.Restore.restore_from
    nordfir.Drivers.LinuxRest.Restore.validate_restore_target
    nordfir.Drivers.LinuxRest.Restore.validate_limits
    nordfir.Drivers.LinuxRest.Restore.read_live_state
    nordfir.Drivers.LinuxRest.Restore.setting_matches
    nordfir.Drivers.LinuxRest.Restore.restore_setting nordfir.State.OriginalPower.state_header
    nordfir.State.OriginalPower.validate_token nordfir.State.OriginalPower.validate
    nordfir.State.OriginalPower.checked nordfir.Format.split_once nordfir.Format.is_token
    nordfir.State.OriginalPower.decode nordfir.State.OriginalPower.decode_lines
    nordfir.State.OriginalPower.decode_fields nordfir.State.OriginalPower.counted_fields
    nordfir.State.OriginalPower.from_fields nordfir.State.OriginalPower.saved_state
    nordfir.State.OriginalPower.parse_field nordfir.State.OriginalPower.required_field
    nordfir.State.OriginalPower.read_fields nordfir.State.OriginalPower.read_line
    nordfir.State.OriginalPower.insert_field nordfir.State.Store.state_path
    nordfir.State.Store.state_suffix nordfir.State.Store.Operations.close_new
    nordfir.State.Store.Operations.make_directory nordfir.State.Store.archive_path
    nordfir.State.Store.path_for nordfir.State.Store.validate_secure_metadata
    nordfir.Files.metadata_of nordfir.Files.grants_others nordfir.Files.third nordfir.Files.find_uid
    nordfir.Files.effective_uid nordfir.Files.validate_secure_directory nordfir.Files.sync_directory
    nordfir.State.Store.load nordfir.State.Store.load_fresh_for_write nordfir.State.Store.load_from
    nordfir.State.Store.load_for_write nordfir.State.Store.check_age nordfir.Cli.audit_log
    nordfir.Cli.event_at nordfir.Cli.finish_audited nordfir.Cli.Writing.settle
    nordfir.Cli.Writing.apply_planned nordfir.Cli.Writing.apply_if_planned
    nordfir.Cli.Writing.apply_loaded nordfir.Cli.Writing.apply_operation
    nordfir.Cli.Writing.restore_settings nordfir.Cli.Writing.archive_snapshot
    nordfir.Cli.Writing.restore_operation nordfir.Cli.Writing.apply_rest_local
    nordfir.Audit.LogChecks.owner_cannot_write nordfir.Audit.LogChecks.validate_file
    nordfir.Audit.LogChecks.validate_parent nordfir.Audit.LogChecks.check_log
    nordfir.Audit.LogChecks.prepare_line nordfir.Audit.Sinks.append_line
    nordfir.Audit.Sinks.record_file nordfir.State.PowerProbe.read_trimmed
    nordfir.State.PowerProbe.read_frequency_mhz nordfir.State.PowerProbe.probe
    nordfir.Host.print_lines nordfir.Format.parent nordfir.Cli.Printing.original_state_lines
    nordfir.State.Store.Operations.retire nordfir.Cli.Printing.restored_lines
    nordfir.State.Store.Operations.prepare_archive nordfir.State.Store.Operations.validate_archive
    nordfir.State.Store.Operations.archive_file nordfir.State.Store.Operations.unlink_active
    nordfir.Cli.Printing.rest_plan_lines nordfir.Cli.Printing.applied_lines
runs = (refl, refl)

restore_log : LogHolds disk disk_documented (audit_log (str "/state")) [] resting
unfolding str nordfir.Base.text_eq state_path nordfir.State.Store.state_suffix nordfir.Format.join
    nordfir.Format.with_separator audit_log
restore_log = inr (str "not found", refl, refl)

snapshot_there :
    (governor hi : Text)
    → Holds disk disk_documented
        (state_path (str "/state") local_node)
        saved_text
        (machine saved_text governor hi)
unfolding str nordfir.Base.text_eq state_path nordfir.State.Store.state_suffix nordfir.Format.join
    nordfir.Format.with_separator audit_log
snapshot_there governor hi = refl

restore_local_success_example :
    IsRecovered Milli ⦃f = milli⦄
      (host restoring)
      disk_documented
      silence_own
      (host_documented restoring)
      (str "/state")
      []
      saved_text
      (restore_active_local Milli ⦃f = milli⦄ (host restoring) resting).1
restore_local_success_example =
    restore_local_success Milli ⦃f = milli⦄ (host restoring) disk_documented silence_own
      (host_documented restoring) (str "/state") [] saved_text resting refl restore_log
      (snapshot_there (str "powersave\n") (str "1600000\n")) runs.0

apply_log : LogHolds disk disk_documented (audit_log (str "/state")) [] awake
unfolding str nordfir.Base.text_eq state_path nordfir.State.Store.state_suffix nordfir.Format.join
    nordfir.Format.with_separator audit_log
apply_log = inr (str "not found", refl, refl)

apply_local_success_example :
    IsEconomized Milli ⦃f = milli⦄
      (host applying)
      disk_documented
      silence_own
      (host_documented applying)
      (str "/state")
      []
      saved_text
      awake
      (apply_rest_local Milli ⦃f = milli⦄ (host applying) awake).1
apply_local_success_example =
    apply_local_success Milli ⦃f = milli⦄ (host applying) disk_documented silence_own
      (host_documented applying) (str "/state") [] saved_text awake refl apply_log
      (snapshot_there (str "performance\n") (str "4000000\n")) runs.1

-- No socket is configured, so that the file is the only sink.
file_only :
    audit_sink (host applying) (str "/state") ≡ ok (record_file disk (audit_log (str "/state")))
unfolding audit_sink nordfir.Cli.configured_forward nordfir.Cli.configured_path
    nordfir.Cli.configured_receipt nordfir.Cli.one_or_all nordfir.Cli.optional_sink
file_only = refl

abbrev failing : Result (Unit {0})
failing = err (str "write failed")

finish_audited_outcome_example :
    IsFinished
      (host applying)
      disk_documented
      (audit_log (str "/state"))
      (str "REST apply")
      failing
      []
      (finish_audited
        (host applying)
        (record_file disk (audit_log (str "/state")))
        (str "REST apply")
        failing
        awake)
    × OthersKept
        (host applying)
        disk_documented
        (audit_log (str "/state"))
        awake
        (finish_audited
          (host applying)
          (record_file disk (audit_log (str "/state")))
          (str "REST apply")
          failing
          awake).1
finish_audited_outcome_example =
    finish_audited_outcome (host applying) disk_documented silence_own (host_documented applying)
      (str "/state") (record_file disk (audit_log (str "/state"))) (str "REST apply") failing []
      awake file_only apply_log
