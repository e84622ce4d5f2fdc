-- ===== src/Tests/Host.antt =====
-- A host on the disk of the tests, for the commands.
use nordfir.Base.{refl, none, some, [], ◌∷◌, Text, str, ok, err}
use nordfir.Base.Time.{since}
use nordfir.Audit.Sinks.{Sockets}
use nordfir.Audit.Sinks.Sent.{HasOwnSockets}
use nordfir.Host.{Host, IsHost}
use nordfir.Tests.Disk.{Disk, put, disk}

-- Nobody listens.
abbrev silence : Sockets Disk
silence = record {
  unbound = λ d. (ok 3, d);
  send_to = λ n t p d. (err (str "refused"), d);
  connect = λ p d. (err (str "refused"), d);
  set_read_timeout = λ n t d. (ok tt, d);
  set_write_timeout = λ n t d. (ok tt, d);
  write_all = λ n t d. (err (str "refused"), d);
  shutdown_write = λ n d. (ok tt, d);
  read_line = λ n m d. (err (str "refused"), d);
}

pub silence_own : HasOwnSockets disk silence
silence_own = record {
  unbound_leaves = λ p s. refl;
  send_leaves = λ n t q p s. refl;
  connect_leaves = λ q p s. refl;
  read_timeout_leaves = λ n t p s. refl;
  write_timeout_leaves = λ n t p s. refl;
  write_leaves = λ n t p s. refl;
  shutdown_leaves = λ n p s. refl;
  read_leaves = λ n m p s. refl;
}

-- Five seconds after the epoch.
abbrev pub host : Text → Host Disk
host command = record {
  files = disk;
  sockets = silence;
  now = λ d. (since 5_000_000_000, d);
  sleep = λ n d. d;
  println = λ t d. d;
  arguments = str "nordfir" ∷ command ∷ str "/state" ∷ str "--confirm-system-power-write" ∷ [];
  var_os = λ t. none;
}

pub host_documented : (command : Text) → IsHost (host command)
host_documented command = record {
  now_leaves = λ p s. refl;
  now_finds = λ p s. refl;
  sleep_leaves = λ p d s. refl;
  println_leaves = λ p t s. refl;
}

-- The process runs as 991; the snapshot is in the state directory.
abbrev pub machine : Text → Text → Text → Disk
machine snapshot governor hi =
    put (str "/proc/self/status") (some (str "Uid:\t991\t991\t991\t991\n")) (
      put (str "/state/local.original-power-state") (some snapshot) (
        put (str "/sys/devices/system/cpu/cpu0/cpufreq/scaling_governor") (some governor) (
          put (str "/sys/devices/system/cpu/cpu0/cpufreq/scaling_min_freq") (some (str "400000\n"))
            (put (str "/sys/devices/system/cpu/cpu0/cpufreq/scaling_max_freq") (some hi) (
              put (str "/sys/devices/system/cpu/cpu0/cpufreq/cpuinfo_min_freq")
                (some (str "400000\n"))
                (put (str "/sys/devices/system/cpu/cpu0/cpufreq/cpuinfo_max_freq")
                  (some (str "4000000\n"))
                  (put (str "/sys/devices/system/cpu/cpu0/cpufreq/scaling_available_governors")
                    (some (str "performance powersave\n")) (λ _. none))))))))
