-- ===== src/State/Collector/Bounds.antt =====
-- linux.rs, `cpu_utilization`: the counters of the two readings give a share, and of the files nothing
-- changes while the collector reads.
use nordfir.Base.{
  ℕ, ◌-◌, ◌<◌, ◌≤◌, ◌≡◌, refl, sym, ap, ◌∙◌, inl, inr, Text, str, Result, ok, err, refuse,
  >>=-eq-ok, ok-injective, refuse-eq-ok, Result-cases, arith, ◌==◌,
}
use nordfir.Float.{F32}
use nordfir.Format.{FilePath}
use nordfir.Core.{NodeId}
use nordfir.Host.{Host, IsHost}
use nordfir.State.Collector.{
  CpuTimes, read_cpu_times, busy_percent, second_sample, sampled, cpu_utilization,
  cpu_sample_interval, observed, collect, memory_utilization, uptime_seconds, load_average_1m,
  cpu_frequency_mhz,
}

module _ {S F : Type 0} ⦃f : F32 F⦄ (host : Host S) where
  -- The percentage of a part of a whole that is not 0.
  abbrev pub IsShare : F → Type 0
  IsShare x =
      (part : ℕ) × (whole : ℕ) × (part ≤ whole)
      × (0 < whole)
      × (x ≡ f.mul (f.div (f.of_ℕ part) (f.of_ℕ whole)) (f.of_ℕ 100))

  busy_percent-IsShare :
      (first second : CpuTimes) {x : F} → busy_percent first second ≡ ok x → IsShare x
  unfolding busy_percent
  busy_percent-IsShare first second h =
      let (_, moved, last) = >>=-eq-ok (refuse (second.total - first.total == 0) _) _ h in
      let advanced = refuse-eq-ok _ _ moved in
      (
        second.total - first.total - (second.idle - first.idle),
        second.total - first.total,
        omega arith,
        ground arith,
        sym (ok-injective last),
      )

  -- What `cpu_utilization` gives is the share of a part in a whole that is not 0, in percent, of the
  -- times at the start and after the sleep: whatever the counters read, also when they wrap, there is no
  -- division by zero and no share above the whole.
  pub cpu_utilization-IsShare :
      (s : S) {x : F}
      → (cpu_utilization host s).0 ≡ ok x
      → (first : CpuTimes) × (second : CpuTimes) × (read_cpu_times host.files s ≡ ok first)
        × (read_cpu_times host.files (host.sleep cpu_sample_interval s) ≡ ok second)
        × (busy_percent first second ≡ ok x)
        × IsShare x
  unfolding cpu_utilization sampled second_sample
  cpu_utilization-IsShare s h = elim (Result-cases (read_cpu_times host.files s)) [
    | inr (e, bad) ↦ let failed = sym (ap (λ r. (sampled {F = F} host r s).0) bad) ∙ h in cc
    | inl (first, read) ↦
        let later = host.sleep cpu_sample_interval s in
        let both = sym (ap (λ r. (sampled {F = F} host r s).0) read) ∙ h in
        let (second, again, busy) =
          >>=-eq-ok (read_cpu_times host.files later) (λ x. busy_percent first x) both in
        (first, second, read, again, busy, busy_percent-IsShare first second busy)
  ]

module _ {S : Type 0} (F : Type 0) ⦃f : F32 F⦄ (host : Host S) (quiet : IsHost host) where
  cpu_utilization-leaves :
      (p : FilePath) (s : S)
      → host.files.read_to_string p (cpu_utilization {F = F} host s).1
        ≡ host.files.read_to_string p s
  unfolding cpu_utilization sampled second_sample
  cpu_utilization-leaves p s = elim (Result-cases (read_cpu_times host.files s)) [
    | inr (e, bad) ↦ rw (bad, sampled) refl
    | inl (first, read) ↦ rw (read, sampled) (quiet.sleep_leaves p cpu_sample_interval s)
  ]

module _ {S : Type 0} (host : Host S) (quiet : IsHost host) where
  observed-leaves :
      {A : Type 0} (source : Text) (r : Result A) (p : FilePath) (s : S)
      → host.files.read_to_string p (observed host source (r, s)).1 ≡ host.files.read_to_string p s
  unfolding observed
  observed-leaves source (ok a) p s = quiet.now_leaves p s
  observed-leaves source (err e) p s = refl

module _ {S : Type 0} (F : Type 0) ⦃f : F32 F⦄ (host : Host S) (quiet : IsHost host) where
  pub collect-leaves :
      (node : NodeId) (p : FilePath) (s : S)
      → host.files.read_to_string p (collect host {F = F} node s).1 ≡ host.files.read_to_string p s
  unfolding collect
  collect-leaves node p s =
      let fs = host.files in
      let s0 = (host.now s).1 in
      let cpu = cpu_utilization {F = F} host s0 in
      let s1 = (observed host (str "procfs:/proc/stat") cpu).1 in
      let s2 =
        (observed host (str "procfs:/proc/meminfo") (memory_utilization {F = F} fs s1, s1)).1 in
      let s3 = (observed host (str "procfs:/proc/uptime") (uptime_seconds F fs s2, s2)).1 in
      let s4 = (observed host (str "procfs:/proc/loadavg") (load_average_1m {F = F} fs s3, s3)).1 in
      observed-leaves host quiet (str "sysfs:cpufreq") (cpu_frequency_mhz {F = F} fs s4) p s4
      ∙ observed-leaves host quiet (str "procfs:/proc/loadavg") (load_average_1m {F = F} fs s3) p s3
      ∙ observed-leaves host quiet (str "procfs:/proc/uptime") (uptime_seconds F fs s2) p s2
      ∙ observed-leaves host quiet (str "procfs:/proc/meminfo") (memory_utilization {F = F} fs s1) p
          s1
      ∙ observed-leaves host quiet (str "procfs:/proc/stat") cpu.0 p cpu.1
      ∙ cpu_utilization-leaves F host quiet p s0
      ∙ quiet.now_leaves p s
