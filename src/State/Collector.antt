-- ===== src/State/Collector.antt =====
-- archive/rust/src/state/linux.rs: `LinuxStateCollector`. What reads a file is a function of the state;
-- reading the clock and sleeping change it.
pub mod Bounds
use nordfir.Base.{
  ℕ, zero, suc, ◌+◌, ◌-◌, ◌*◌, ◌%◌, ◌^◌, Bool, true, false, not, ◌&&◌, Option, none, some, List, [],
  ◌∷◌, ◌++◌, Text, str, text_eq, length, ltb, ◌==◌, Result, ok, err, ◌>>=◌, ◌>>◌, refuse, ok_or,
  context, to_option, if◌then◌else◌,
}
use nordfir.Base.Io.{Io}
use nordfir.Base.Time.{SystemTime, Duration}
use nordfir.Float.{F32}
use nordfir.Format.{FilePath, lines, split_whitespace, strip_prefix, trim, parse_unsigned, max_u64}
use nordfir.Core.{NodeId, NodeSnapshot, Observation, PowerMode, known_at, unknown_at}
use nordfir.Files.{FileSystem}
use nordfir.Host.{Host}

pub record CpuTimes : Type 0 where
  pub total : ℕ
  pub idle : ℕ

-- `filter_map(|v| v.parse::<u64>().ok())`
unfoldable pub numbers_of : List Text → List ℕ
numbers_of [] = []
numbers_of (word ∷ words) = elim (parse_unsigned max_u64 word) [
  | ok n ↦ n ∷ numbers_of words
  | err e ↦ numbers_of words
]

-- `iter().copied().sum()`, which wraps
unfoldable pub sum_u64 : List ℕ → ℕ
sum_u64 [] = 0
sum_u64 (n ∷ ns) = (n + sum_u64 ns) % 2 ^ 64

-- `get(n).copied().unwrap_or(0)`
unfoldable pub get_or_zero : List ℕ → ℕ → ℕ
get_or_zero [] n = 0
get_or_zero (m ∷ ms) zero = m
get_or_zero (m ∷ ms) (suc n) = get_or_zero ms n

unfoldable pub cpu_times : List ℕ → Result CpuTimes
cpu_times numbers = do
  refuse (ltb (length numbers) 4) (str "not enough CPU counters in /proc/stat")
  ok (record {
    total = sum_u64 numbers;
    idle = (get_or_zero numbers 3 + get_or_zero numbers 4) % 2 ^ 64;
  })

unfoldable pub parse_cpu_line : List Text → Result CpuTimes
parse_cpu_line [] = err (str "unexpected /proc/stat format")
parse_cpu_line (name ∷ values) =
    if text_eq name (str "cpu")
    then cpu_times (numbers_of values)
    else err (str "unexpected /proc/stat format")

abbrev first_of : List Text → Option Text
first_of [] = none
first_of (t ∷ ts) = some t

module _ {S : Type 0} (fs : FileSystem S) where
  unfoldable pub read_cpu_times : S → Result CpuTimes
  read_cpu_times s = do
    content ← context (str "read /proc/stat: ") (fs.read_to_string (str "/proc/stat") s)
    line ← ok_or (first_of (lines content)) (str "missing aggregate cpu line")
    parse_cpu_line (split_whitespace line)

module _ {F : Type 0} ⦃f : F32 F⦄ where
  -- The share of the time between two readings that was not idle, in percent.
  unfoldable pub busy_percent : CpuTimes → CpuTimes → Result F
  busy_percent first second = do
    refuse (second.total - first.total == 0) (str "CPU counters did not advance")
    ok (
        f.mul
          (f.div (f.of_ℕ (second.total - first.total - (second.idle - first.idle)))
            (f.of_ℕ (second.total - first.total)))
          (f.of_ℕ 100))

  unfoldable pub parse_kib : Text → Option F
  parse_kib value = elim (split_whitespace value) [
    | [] ↦ none
    | word ∷ words ↦ to_option (f.parse word)
  ]

  -- The value behind the last line with this prefix. A value that does not parse resets it.
  unfoldable pub last_kib : Text → List Text → Option F → Option F
  last_kib prefix [] found = found
  last_kib prefix (line ∷ more) found =
      last_kib prefix more
        (elim (strip_prefix prefix line) [ none ↦ found | some value ↦ parse_kib value ])

  unfoldable pub used_percent : F → F → Result F
  used_percent total available = do
    refuse (f.le total (f.of_ℕ 0) && f.le (f.of_ℕ 0) total) (str "MemTotal was zero")
    ok (
        f.mul
          (f.div
            (if f.le (f.of_ℕ 0) (f.sub total available) then f.sub total available else f.of_ℕ 0)
            total)
          (f.of_ℕ 100))

  module _ {S : Type 0} (fs : FileSystem S) where
    unfoldable pub memory_utilization : S → Result F
    memory_utilization s = do
      content ← context (str "read /proc/meminfo: ") (fs.read_to_string (str "/proc/meminfo") s)
      total ← ok_or (last_kib (str "MemTotal:") (lines content) none) (str "MemTotal missing")
      available ←
          ok_or (last_kib (str "MemAvailable:") (lines content) none) (str "MemAvailable missing")
      used_percent total available

    unfoldable pub load_average_1m : S → Result F
    load_average_1m s = do
      content ← context (str "read /proc/loadavg: ") (fs.read_to_string (str "/proc/loadavg") s)
      load ← ok_or (first_of (split_whitespace content)) (str "load average missing")
      context (str "parse load average: ") (f.parse load)

    unfoldable pub frequency_from : List FilePath → S → Result F
    frequency_from [] s = err (str "CPU frequency interface unavailable")
    frequency_from (path ∷ paths) s =
        elim (fs.read_to_string path s >>= λ content. f.parse (trim content)) [
          | ok khz ↦ ok (f.div khz (f.of_ℕ 1000))
          | err e ↦ frequency_from paths s
        ]

    unfoldable pub cpu_frequency_mhz : S → Result F
    cpu_frequency_mhz = frequency_from (
        str "/sys/devices/system/cpu/cpu0/cpufreq/scaling_cur_freq"
        ∷ str "/sys/devices/system/cpu/cpu0/cpufreq/cpuinfo_cur_freq"
        ∷ [])

module _ {S : Type 0} (F : Type 0) ⦃f : F32 F⦄ (fs : FileSystem S) where
  unfoldable pub uptime_seconds : S → Result ℕ
  uptime_seconds s = do
    content ← context (str "read /proc/uptime: ") (fs.read_to_string (str "/proc/uptime") s)
    seconds ← ok_or (first_of (split_whitespace content)) (str "uptime value missing")
    context (str "parse uptime: ") (f.parse_truncated seconds)

-- 120 milliseconds
abbrev pub cpu_sample_interval : Duration
cpu_sample_interval = 120_000_000

module _ {S F : Type 0} ⦃f : F32 F⦄ (host : Host S) where
  unfoldable pub second_sample : CpuTimes → Io S F
  second_sample first s = (read_cpu_times host.files s >>= λ second. busy_percent first second, s)

  unfoldable pub sampled : Result CpuTimes → Io S F
  sampled (err e) s = (err e, s)
  sampled (ok first) s = second_sample first (host.sleep cpu_sample_interval s)

  unfoldable pub cpu_utilization : Io S F
  cpu_utilization s = sampled (read_cpu_times host.files s) s

module _ {S : Type 0} (host : Host S) where
  -- `map(|value| Observation::known(value, source))` and `ok()`; the clock is read for a value only.
  unfoldable pub observed : {A : Type 0} → Text → Result A × S → Option (Observation A) × S
  observed source (err e, s) = (none, s)
  observed source (ok a, s) = (some (known_at a source (host.now s).0), (host.now s).1)

  -- `LinuxStateCollector::collect`, which never fails.
  unfoldable pub collect : {F : Type 0} ⦃f : F32 F⦄ → NodeId → S → NodeSnapshot F × S
  collect {F} node s =
      let (now, s0) = host.now s in
      let (cpu, s1) = observed (str "procfs:/proc/stat") (cpu_utilization {F = F} host s0) in
      let (memory, s2) =
        observed (str "procfs:/proc/meminfo") (memory_utilization {F = F} host.files s1, s1) in
      let (uptime, s3) =
        observed (str "procfs:/proc/uptime") (uptime_seconds F host.files s2, s2) in
      let (load, s4) =
        observed (str "procfs:/proc/loadavg") (load_average_1m {F = F} host.files s3, s3) in
      let (frequency, s5) =
        observed (str "sysfs:cpufreq") (cpu_frequency_mhz {F = F} host.files s4, s4) in
      (
        record {
          node = node;
          power_mode = known_at PowerMode.active (str "local-linux") now;
          reachable = known_at true (str "local-linux") now;
          active_ssh_sessions =
              unknown_at
                (str "SSH session inspection is not implemented by the local collector yet")
                (str "local-linux") now;
          protected_services = [];
          services = [];
          cpu_utilization_percent = cpu;
          memory_utilization_percent = memory;
          load_average_1m = load;
          uptime_seconds = uptime;
          cpu_frequency_mhz = frequency;
          power = none;
        },
        s5,
      )
