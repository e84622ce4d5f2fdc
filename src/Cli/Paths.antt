-- ===== src/Cli/Paths.antt =====
-- main.rs: the files that the commands write are different ones. Their names end differently.
use mathlib.Core.List.{reverse-append}
use nordfir.Base.{
  ℕ, ◌≡◌, refl, sym, ap, ◌∙◌, ◌≢◌, true, ◌++◌, reverse, append_assoc, Text, str, clash, append-ne,
}
use nordfir.Format.{FilePath, join, with_separator}
use nordfir.Core.{NodeId}
use nordfir.State.Store.{state_path, state_suffix, archive_path, archived_name}
use nordfir.Drivers.LinuxRest.{cpufreq, cpufreq_path, governor_file, min_freq_file, max_freq_file}
use nordfir.Cli.{audit_log}

suffix-ne : (p q s t : Text) → clash (reverse s) (reverse t) ≡ true → (p ++ s) ≢ (q ++ t)
suffix-ne p q s t apart e =
    append-ne (reverse s) (reverse t) (reverse p) (reverse q) apart
      (sym (reverse-append p s) ∙ ap reverse e ∙ reverse-append q t)

abbrev log_name : Text
log_name = str "audit.log"

-- A file of the kernel that the driver writes to.
pub data IsSettingFile (name : Text) : Type 0 where
  governor : name ≡ governor_file → IsSettingFile name
  minimum : name ≡ min_freq_file → IsSettingFile name
  maximum : name ≡ max_freq_file → IsSettingFile name

log-clash : (name : Text) → IsSettingFile name → clash (reverse log_name) (reverse name) ≡ true
unfolding clash str governor_file min_freq_file max_freq_file
log-clash name (IsSettingFile.governor e) = rw e
log-clash name (IsSettingFile.minimum e) = rw e
log-clash name (IsSettingFile.maximum e) = rw e

suffix-clash :
    (name : Text) → IsSettingFile name → clash (reverse state_suffix) (reverse name) ≡ true
unfolding clash str state_suffix governor_file min_freq_file max_freq_file
suffix-clash name (IsSettingFile.governor e) = rw e
suffix-clash name (IsSettingFile.minimum e) = rw e
suffix-clash name (IsSettingFile.maximum e) = rw e

log-suffix-clash : clash (reverse log_name) (reverse state_suffix) ≡ true
unfolding clash str state_suffix
log-suffix-clash = refl

module _ (directory : FilePath) where
  state_path-split :
      (node : NodeId)
      → state_path directory node ≡ (with_separator directory ++ node) ++ state_suffix
  unfolding state_path join
  state_path-split node = sym (append_assoc (with_separator directory) node state_suffix)

  pub audit_log-ne-state_path : (node : NodeId) → audit_log directory ≢ state_path directory node
  unfolding audit_log join
  audit_log-ne-state_path node e =
      suffix-ne (with_separator directory) (with_separator directory ++ node) log_name state_suffix
        log-suffix-clash (e ∙ state_path-split node)

  pub audit_log-ne-archived :
      (node : NodeId) (n : ℕ)
      → audit_log directory ≢ join (archive_path directory) (archived_name node n)
  unfolding audit_log join archived_name
  audit_log-ne-archived node n e =
      suffix-ne (with_separator directory) (with_separator (archive_path directory) ++ _) log_name
        state_suffix log-suffix-clash
        (e ∙ sym (append_assoc (with_separator (archive_path directory)) _ state_suffix))

module _ (directory root : FilePath) where
  pub audit_log-ne-setting :
      (name : Text) → IsSettingFile name → audit_log directory ≢ cpufreq_path root name
  unfolding audit_log cpufreq_path join
  audit_log-ne-setting name setting =
      suffix-ne (with_separator directory) (with_separator (with_separator root ++ cpufreq))
        log_name name (log-clash name setting)

  pub state_path-ne-setting :
      (node : NodeId) (name : Text)
      → IsSettingFile name
      → state_path directory node ≢ cpufreq_path root name
  unfolding cpufreq_path join
  state_path-ne-setting node name setting e =
      suffix-ne (with_separator directory ++ node) (with_separator (with_separator root ++ cpufreq))
        state_suffix name (suffix-clash name setting) (sym (state_path-split directory node) ∙ e)
