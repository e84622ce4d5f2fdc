-- ===== src/Tests/Reports.antt =====
-- The collector, the inspection of the store, the log's file and the reading commands at concrete disks.
use nordfir.Base.{
  ◌≡◌, refl, ◌<◌, ◌≤◌, inr, ℕ, Bool, true, none, some, [], Text, str, ok, ◌++◌, text_eq,
}
use nordfir.Base.Time.{Duration, since}
use nordfir.Format.{FilePath}
use nordfir.Audit.{AuditEvent, AuditEventKind, encode_event}
use nordfir.Audit.Sinks.{record_file}
use nordfir.Audit.Sinks.Appended.{LogHolds, record_file_appends}
use nordfir.State.Store.Saved.{Holds}
use nordfir.State.Store.Lifecycle.{RecoveryLifecycleStatus, inspect_lifecycle}
use nordfir.State.Store.Lifecycle.Reports.{IsReported, inspect_lifecycle_reports}
use nordfir.State.Collector.{
  CpuTimes, read_cpu_times, busy_percent, cpu_utilization, cpu_sample_interval,
}
use nordfir.State.Collector.Bounds.{IsShare, cpu_utilization-IsShare}
use nordfir.Host.{Host}
use nordfir.Cli.Dispatch.{Formats}
use nordfir.Tests.Milli.{Milli, milli}
use nordfir.Tests.Store.{saved_text}
use nordfir.Tests.Energy.{saved}
use nordfir.Tests.Disk.{Disk, put, disk, disk_documented}
use nordfir.Tests.Host.{host, machine}

abbrev resting : Disk
resting = machine saved_text (str "powersave\n") (str "1600000\n")

-- The counters move on while the collector sleeps.
abbrev stat : Text → Disk → Disk
stat t = put (str "/proc/stat") (some t)

abbrev ticking : Host Disk
ticking = record (host (str "inspect-local")) {
  sleep = λ (n : Duration) d. stat (str "cpu 30 0 0 50 0\n") d;
}

abbrev sampled_at : Disk
sampled_at = stat (str "cpu 10 0 0 30 0\n") (λ _. none)

half_busy : (cpu_utilization {F = Milli} ⦃f = milli⦄ ticking sampled_at).0 ≡ ok (Milli.plus 50_000)
unfolding cpu_utilization nordfir.State.Collector.sampled read_cpu_times text_eq str
    nordfir.Format.lines nordfir.State.Collector.parse_cpu_line nordfir.Format.split_whitespace
    nordfir.Format.Strings.words_from nordfir.Format.is_whitespace nordfir.Format.Strings.keep_word
    nordfir.State.Collector.cpu_times nordfir.State.Collector.numbers_of
    nordfir.Format.parse_unsigned nordfir.Format.parse_radix nordfir.Format.parse_digits
    nordfir.Format.push_digit nordfir.Format.is_digit nordfir.Format.to_digit busy_percent
    nordfir.State.Collector.get_or_zero nordfir.State.Collector.second_sample
    nordfir.State.Collector.sum_u64
half_busy = refl

abbrev status : RecoveryLifecycleStatus Milli
status = record {
  state_directory_initialized = true;
  active_snapshot = some saved;
  archived_snapshots = 0;
}

inspected :
    inspect_lifecycle Milli ⦃f = milli⦄ disk (str "/state") (str "local") resting ≡ ok status
unfolding inspect_lifecycle nordfir.State.OriginalPower.validate_token nordfir.Format.is_token str
    text_eq nordfir.State.Store.Lifecycle.inspect_root nordfir.Files.validate_secure_directory
    nordfir.Files.metadata_of nordfir.Files.grants_others nordfir.Files.effective_uid
    nordfir.Files.find_uid nordfir.Format.lines nordfir.Format.strip_prefix nordfir.Files.third
    nordfir.Format.split_whitespace nordfir.Format.Strings.words_from nordfir.Format.is_whitespace
    nordfir.Core.get nordfir.Format.decimal nordfir.Format.is_digit nordfir.Format.parse_digits
    nordfir.Format.parse_radix nordfir.Format.parse_unsigned nordfir.Format.push_digit
    nordfir.Format.to_digit nordfir.Format.is_token_char nordfir.Format.split_once
    nordfir.Format.join nordfir.Format.Strings.keep_word nordfir.Format.with_separator
    nordfir.State.OriginalPower.checked nordfir.State.OriginalPower.counted_fields
    nordfir.State.OriginalPower.decode nordfir.State.OriginalPower.decode_fields
    nordfir.State.OriginalPower.decode_lines nordfir.State.OriginalPower.from_fields
    nordfir.State.OriginalPower.insert_field nordfir.State.OriginalPower.parse_field
    nordfir.State.OriginalPower.read_fields nordfir.State.OriginalPower.read_line
    nordfir.State.OriginalPower.required_field nordfir.State.OriginalPower.saved_state
    nordfir.State.OriginalPower.state_header nordfir.State.OriginalPower.validate
    nordfir.State.Store.Lifecycle.check_archived nordfir.State.Store.Lifecycle.count_archive
    nordfir.State.Store.Lifecycle.count_entries nordfir.State.Store.Lifecycle.count_entry
    nordfir.State.Store.Lifecycle.ends_with nordfir.State.Store.Lifecycle.inspect_active
    nordfir.State.Store.Lifecycle.inspect_archive nordfir.State.Store.Lifecycle.inspect_found
    nordfir.State.Store.Lifecycle.inspect_snapshots nordfir.State.Store.Lifecycle.is_snapshot_of
    nordfir.State.Store.Lifecycle.starts_with nordfir.State.Store.Lifecycle.validate_secure_file
    nordfir.State.Store.archive_path nordfir.State.Store.archived_name nordfir.State.Store.load
    nordfir.State.Store.load_for_write nordfir.State.Store.load_from nordfir.State.Store.path_for
    nordfir.State.Store.state_path nordfir.State.Store.state_suffix
    nordfir.State.Store.validate_secure_metadata
inspected = refl

inspect_lifecycle_reports_example :
    IsReported Milli ⦃f = milli⦄ disk (str "/state") (str "local") resting status
inspect_lifecycle_reports_example =
    inspect_lifecycle_reports Milli ⦃f = milli⦄ disk (str "/state") (str "local") resting inspected

cpu_utilization-IsShare_example :
    (first : CpuTimes) × (second : CpuTimes) × (read_cpu_times disk sampled_at ≡ ok first)
    × (read_cpu_times disk (ticking.sleep cpu_sample_interval sampled_at) ≡ ok second)
    × (busy_percent {F = Milli} ⦃f = milli⦄ first second ≡ ok (Milli.plus 50_000))
    × IsShare {F = Milli} ⦃f = milli⦄ ticking (Milli.plus 50_000)
cpu_utilization-IsShare_example =
    cpu_utilization-IsShare {F = Milli} ⦃f = milli⦄ ticking sampled_at half_busy

abbrev completed : AuditEvent
completed = record {
  at = since 5_000_000_000;
  actor = str "local-user";
  kind = AuditEventKind.action_executed;
  message = str "Done";
}

abbrev log : FilePath
log = str "/state/audit.log"

logged : (record_file disk log completed resting).0 ≡ ok tt
unfolding record_file nordfir.Audit.LogChecks.prepare_line nordfir.Audit.LogChecks.validate_parent
    nordfir.Format.parent str nordfir.Files.metadata_of text_eq nordfir.Files.grants_others
    nordfir.Files.effective_uid nordfir.Files.find_uid nordfir.Format.lines
    nordfir.Format.strip_prefix nordfir.Files.third nordfir.Format.split_whitespace
    nordfir.Format.Strings.words_from nordfir.Format.is_whitespace nordfir.Format.Strings.keep_word
    nordfir.Audit.LogChecks.check_log nordfir.Audit.LogChecks.inspect_failed
    nordfir.Audit.LogChecks.owner_cannot_write nordfir.Audit.LogChecks.validate_file
    nordfir.Audit.Sinks.append_line encode_event nordfir.Audit.escape_field nordfir.Audit.event_kind
    nordfir.Audit.event_line nordfir.Audit.replace nordfir.Base.Time.duration_since
    nordfir.Format.decimal nordfir.Format.is_digit nordfir.Format.parse_digits
    nordfir.Format.parse_radix nordfir.Format.parse_unsigned nordfir.Format.push_digit
    nordfir.Format.to_digit nordfir.Format.is_absolute
logged = refl

new_log : LogHolds disk disk_documented log [] resting
unfolding text_eq str
new_log = inr (str "not found", refl, refl)

record_file_appends_example :
    (line : Text) × (encode_event completed ≡ ok line)
    × Holds disk disk_documented log ([] ++ line) (record_file disk log completed resting).1
record_file_appends_example =
    record_file_appends disk disk_documented log completed [] resting new_log logged

abbrev formats : Formats Milli
formats = record { snapshot_lines = λ s. []; show_action = λ k. [] }

abbrev planning : Text
planning = str "plan-rest-local"
