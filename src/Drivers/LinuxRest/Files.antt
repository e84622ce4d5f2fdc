-- ===== src/Drivers/LinuxRest/Files.antt =====
-- linux_rest.rs: what a write to one of the files does to the others, and what the checks of a file
-- tell of what is read from it.
use nordfir.Base.{
  ◌≡◌, refl, ap, ◌∙◌, ◌≢◌, inl, inr, ◌↔◌, true, not, ◌||◌, ◌++◌, Text, str, text_eq, text_eq_iff,
  text-ne, append_cancel_left, Result, ok, refuse-not-eq-ok, context, Bool-cases, >>=-eq-ok,
}
use nordfir.Float.{F32}
use nordfir.Format.{FilePath, join, with_separator}
use nordfir.Drivers.LinuxRest.{
  Sysfs, cpufreq, cpufreq_path, governor_file, max_freq_file, min_freq_file, read_trimmed,
  read_frequency, verify_text, verify_frequency, write_then, write_and_verify_text,
  write_and_verify_frequency, approximately_equal,
}

-- Documented behaviour of the kernel's files that the driver relies on: a write to one of them, also
-- one that fails, does not change what is read from another.
pub record HasSeparateFiles {S : Type 0} (sys : Sysfs S) : Type 0 where
  pub read-write :
      (p q : FilePath) (t : Text) (s : S) → p ≢ q → sys.read p (sys.write q t s).1 ≡ sys.read p s

cpufreq_path-injective : (root a b : Text) → cpufreq_path root a ≡ cpufreq_path root b → a ≡ b
unfolding cpufreq_path join
cpufreq_path-injective root a b h =
    append_cancel_left (with_separator (with_separator root ++ cpufreq)) h

-- The driver's files are three.
pub governor_file-ne-max_freq_file : governor_file ≢ max_freq_file
unfolding governor_file max_freq_file str text_eq
governor_file-ne-max_freq_file = text-ne governor_file max_freq_file refl

pub governor_file-ne-min_freq_file : governor_file ≢ min_freq_file
unfolding governor_file min_freq_file str text_eq
governor_file-ne-min_freq_file = text-ne governor_file min_freq_file refl

pub min_freq_file-ne-max_freq_file : min_freq_file ≢ max_freq_file
unfolding min_freq_file max_freq_file str text_eq
min_freq_file-ne-max_freq_file = text-ne min_freq_file max_freq_file refl

module _ {S : Type 0} (sys : Sysfs S) (root : FilePath) where
  -- The text that is read from one of the files.
  abbrev pub contents : Text → S → Result Text
  contents name = sys.read (cpufreq_path root name)

  module _ (laws : HasSeparateFiles sys) where
    contents-write_then :
        (a b value : Text) (verify : S → Result (Unit {0})) (s : S)
        → a ≢ b
        → contents a (write_then sys (cpufreq_path root b) value verify s).1 ≡ contents a s
    unfolding write_then
    contents-write_then a b value verify s d =
        laws.read-write _ _ value s (λ h. d (cpufreq_path-injective root a b h))

    pub contents-write_text :
        (a b value : Text) (s : S)
        → a ≢ b
        → contents a (write_and_verify_text sys (cpufreq_path root b) value s).1 ≡ contents a s
    unfolding write_and_verify_text
    contents-write_text a b value s d = contents-write_then a b value _ s d

  write_then-verified :
      (path value : Text) (verify : S → Result (Unit {0})) (s : S)
      → (write_then sys path value verify s).0 ≡ ok tt
      → verify (write_then sys path value verify s).1 ≡ ok tt
  unfolding write_then
  write_then-verified path value verify s h =
      let (_, _, verified) =
        >>=-eq-ok (context (str "write " ++ path ++ str ": ") (sys.write path value s).0)
          (λ _. verify (sys.write path value s).1) h in
      verified

  pub write_text-verified :
      (path value : Text) (s : S)
      → (write_and_verify_text sys path value s).0 ≡ ok tt
      → verify_text sys path value (write_and_verify_text sys path value s).1 ≡ ok tt
  unfolding write_and_verify_text
  write_text-verified path value s h = write_then-verified path value _ s h

  -- A check looks at its own file only.
  pub verify_text-eq :
      (path value : Text) (s s' : S)
      → sys.read path s' ≡ sys.read path s
      → verify_text sys path value s' ≡ verify_text sys path value s
  unfolding verify_text read_trimmed
  verify_text-eq path value s s' h = rw h

  pub verify_text_iff :
      (path : FilePath) (value : Text) (s : S)
      → (verify_text sys path value s ≡ ok tt) ↔ (read_trimmed sys path s ≡ ok value)
  unfolding verify_text
  verify_text_iff path value s = (
    (λ h.
        let (actual, r, good) = >>=-eq-ok (read_trimmed sys path s) _ h in
        r ∙ ap (λ (x : Text). ok x) ((text_eq_iff actual value).0 (refuse-not-eq-ok _ _ good))),
    (λ r. let e = (text_eq_iff value value).1 refl in rw (r, e)),
  )

module _ {S F : Type 0} ⦃f : F32 F⦄ (sys : Sysfs S) (root : FilePath) where
  pub verify_frequency-eq :
      (path : Text) (value : F) (s s' : S)
      → sys.read path s' ≡ sys.read path s
      → verify_frequency sys path value s' ≡ verify_frequency sys path value s
  unfolding verify_frequency read_frequency read_trimmed
  verify_frequency-eq path value s s' h = rw h

  pub contents-write_frequency :
      HasSeparateFiles sys
      → (a b : Text) (value : F) (s : S) → a ≢ b
      → contents sys root a (write_and_verify_frequency sys (cpufreq_path root b) value s).1
        ≡ contents sys root a s
  unfolding write_and_verify_frequency
  contents-write_frequency laws a b value s d =
      elim (Bool-cases (not (f.is_finite value) || f.le value (f.of_ℕ 0))) [
        | inl e ↦ rw (e, write_and_verify_frequency)
        | inr e ↦ rw (e, write_and_verify_frequency) (contents-write_then sys root laws a b _ _ s d)
      ]

  pub write_frequency-verified :
      (path : Text) (value : F) (s : S)
      → (write_and_verify_frequency sys path value s).0 ≡ ok tt
      → verify_frequency sys path value (write_and_verify_frequency sys path value s).1 ≡ ok tt
  unfolding write_and_verify_frequency
  write_frequency-verified path value s h =
      elim (Bool-cases (not (f.is_finite value) || f.le value (f.of_ℕ 0))) [
        | inl e ↦ cc
        | inr e ↦
            rw (e, write_and_verify_frequency)
              (write_then-verified sys root path _ _ s (rw (e, write_and_verify_frequency) at h))
      ]

  pub verify_frequency_iff :
      (path : FilePath) (value : F) (s : S)
      → (verify_frequency sys path value s ≡ ok tt) ↔ (
          (actual : F) × (read_frequency sys path s ≡ ok actual)
          × (approximately_equal actual value ≡ true))
  unfolding verify_frequency
  verify_frequency_iff path value s = (
    (λ h.
        let (actual, r, good) = >>=-eq-ok (read_frequency sys path s) _ h in
        (actual, r, refuse-not-eq-ok _ _ good)),
    (λ (actual, r, e). rw (r, e)),
  )
