-- ===== src/Tests/Store.antt =====
-- The saved state and its store at a concrete disk.
use nordfir.Base.{
  ℕ, ◌≤◌, ◌≡◌, refl, ◌≢◌, ◌↔◌, ◌⊎◌, inl, inr, Bool, true, false, Option, none, some, List, [], ◌∷◌,
  ◌++◌, Text, str, text-ne, Result, ok, err, arith,
}
use nordfir.Base.Time.{SystemTime, Duration, since, duration_since, unix_epoch, as_secs}
use nordfir.Format.{join, FilePath}
use nordfir.State.OriginalPower.{OriginalPowerState, encode, decode, state_text, capture}
use nordfir.State.OriginalPower.Validity.{IsValid, decode-IsValid, encode_iff, capture_ok}
use nordfir.State.OriginalPower.RoundTrip.{decode-encode}
use nordfir.State.Store.{state_path, archive_path, archived_name, load, load_fresh_for_write}
use nordfir.State.Store.Fresh.{IsLoaded, IsSecure, IsRecent, load_fresh_safe}
use nordfir.State.Store.Saved.{Holds, save_keeps, load-save}
use nordfir.State.Store.Retired.{IsKept, retire-IsKept, retire_keeps}
use nordfir.State.Store.Operations.{save, retire}
use nordfir.Tests.Milli.{Milli, milli, milli-IsPrinted}
use nordfir.Tests.Energy.{saved, laptop}
use nordfir.Tests.Disk.{Disk, put, disk, disk_documented}

abbrev pub saved_text : Text
saved_text =
    str
      "NORDFIR_ORIGINAL_POWER_STATE_V1\nversion=1\nnode=local\ncaptured_at_unix_seconds=4\ngovernor=performance\nscaling_min_mhz=m400000\nscaling_max_mhz=m4000000\n"

encoded : encode ⦃f = milli⦄ saved ≡ ok saved_text
unfolding encode nordfir.State.OriginalPower.state_header nordfir.State.OriginalPower.validate_token
    nordfir.State.OriginalPower.validate nordfir.State.OriginalPower.checked
    nordfir.State.OriginalPower.current_state nordfir.State.OriginalPower.entry capture state_text
    str nordfir.Base.text_eq nordfir.Format.decimal nordfir.Format.parse_unsigned
    nordfir.Format.parse_radix nordfir.Format.parse_digits nordfir.Format.push_digit
    nordfir.Format.to_digit nordfir.Format.is_digit nordfir.Format.lines nordfir.Format.split_once
    nordfir.Format.is_token_char nordfir.Format.is_token nordfir.Format.join
    nordfir.Format.with_separator nordfir.Format.strip_prefix nordfir.Format.split_whitespace
    nordfir.Format.is_whitespace nordfir.Format.Strings.words_from nordfir.Format.Strings.keep_word
    nordfir.Core.get nordfir.Base.Time.duration_since
encoded = refl

decoded : decode ⦃f = milli⦄ saved_text ≡ ok saved
unfolding decode nordfir.State.OriginalPower.decode_lines nordfir.State.OriginalPower.decode_fields
    nordfir.State.OriginalPower.counted_fields nordfir.State.OriginalPower.from_fields
    nordfir.State.OriginalPower.saved_state nordfir.State.OriginalPower.parse_field
    nordfir.State.OriginalPower.required_field nordfir.State.OriginalPower.read_fields
    nordfir.State.OriginalPower.read_line nordfir.State.OriginalPower.insert_field encode
    nordfir.State.OriginalPower.state_header nordfir.State.OriginalPower.validate_token
    nordfir.State.OriginalPower.validate nordfir.State.OriginalPower.checked
    nordfir.State.OriginalPower.current_state nordfir.State.OriginalPower.entry capture state_text
    str nordfir.Base.text_eq nordfir.Format.decimal nordfir.Format.parse_unsigned
    nordfir.Format.parse_radix nordfir.Format.parse_digits nordfir.Format.push_digit
    nordfir.Format.to_digit nordfir.Format.is_digit nordfir.Format.lines nordfir.Format.split_once
    nordfir.Format.is_token_char nordfir.Format.is_token nordfir.Format.join
    nordfir.Format.with_separator nordfir.Format.strip_prefix nordfir.Format.split_whitespace
    nordfir.Format.is_whitespace nordfir.Format.Strings.words_from nordfir.Format.Strings.keep_word
    nordfir.Core.get nordfir.Base.Time.duration_since
decoded = refl

decode-encode_example : decode ⦃f = milli⦄ saved_text ≡ ok saved
decode-encode_example = decode-encode ⦃f = milli⦄ milli-IsPrinted saved (omega arith) encoded

decode-IsValid_example : IsValid ⦃f = milli⦄ saved
decode-IsValid_example = decode-IsValid ⦃f = milli⦄ saved_text decoded

encode_iff_example :
    (encode ⦃f = milli⦄ saved ≡ ok (state_text ⦃f = milli⦄ saved)) ↔ IsValid ⦃f = milli⦄ saved
encode_iff_example = encode_iff ⦃f = milli⦄ saved

captured : capture ⦃f = milli⦄ (str "local") laptop (since 4_000_000_000) ≡ ok saved
unfolding encode nordfir.State.OriginalPower.state_header nordfir.State.OriginalPower.validate_token
    nordfir.State.OriginalPower.validate nordfir.State.OriginalPower.checked
    nordfir.State.OriginalPower.current_state nordfir.State.OriginalPower.entry capture state_text
    str nordfir.Base.text_eq nordfir.Format.decimal nordfir.Format.parse_unsigned
    nordfir.Format.parse_radix nordfir.Format.parse_digits nordfir.Format.push_digit
    nordfir.Format.to_digit nordfir.Format.is_digit nordfir.Format.lines nordfir.Format.split_once
    nordfir.Format.is_token_char nordfir.Format.is_token nordfir.Format.join
    nordfir.Format.with_separator nordfir.Format.strip_prefix nordfir.Format.split_whitespace
    nordfir.Format.is_whitespace nordfir.Format.Strings.words_from nordfir.Format.Strings.keep_word
    nordfir.Core.get nordfir.Base.Time.duration_since
captured = refl

capture_ok_example :
    IsValid ⦃f = milli⦄ saved
    × (saved.node ≡ str "local")
    × (laptop.current_governor ≡ some saved.governor)
    × (laptop.scaling_min_mhz ≡ some saved.scaling_min_mhz)
    × (laptop.scaling_max_mhz ≡ some saved.scaling_max_mhz)
    × ((d : Duration) × (duration_since (since 4_000_000_000) unix_epoch ≡ some d)
        × (saved.captured_at_unix_seconds ≡ as_secs d))
capture_ok_example = capture_ok ⦃f = milli⦄ (str "local") laptop (since 4_000_000_000) captured

abbrev root : FilePath
root = str "/state"

abbrev active : FilePath
active = str "/state/local.original-power-state"

-- A disk on which the process runs as 991.
abbrev empty_disk : Disk
empty_disk = put (str "/proc/self/status") (some (str "Uid:\t991\t991\t991\t991\n")) (λ _. none)

abbrev full_disk : Disk
full_disk = put active (some saved_text) empty_disk

active_path : state_path root (str "local") ≡ active
unfolding state_path nordfir.State.Store.state_suffix str nordfir.Format.join
    nordfir.Format.with_separator
active_path = refl

held :
    Holds disk disk_documented
      (str "/proc/self/status")
      (str "Uid:\t991\t991\t991\t991\n")
      empty_disk
unfolding str nordfir.Base.text_eq
held = refl

kept : Holds disk disk_documented (state_path root (str "local")) saved_text full_disk
unfolding str nordfir.Base.text_eq state_path nordfir.State.Store.state_suffix nordfir.Format.join
    nordfir.Format.with_separator
kept = refl

save_keeps_example :
    Holds disk disk_documented
      (state_path root (str "local"))
      saved_text
      (save disk ⦃f = milli⦄ root saved full_disk).1
save_keeps_example =
    save_keeps disk disk_documented ⦃f = milli⦄ root saved (state_path root (str "local"))
      saved_text full_disk kept

was_saved : (save disk ⦃f = milli⦄ root saved empty_disk).0 ≡ ok active
unfolding nordfir.State.Store.Operations.close_new nordfir.State.Store.Operations.make_directory
    nordfir.State.Store.Operations.check_directory nordfir.State.Store.Operations.prepare_root
    nordfir.State.Store.Operations.write_new nordfir.State.Store.Operations.save_at save state_path
    nordfir.State.Store.state_suffix archive_path archived_name nordfir.State.Store.path_for
    nordfir.State.Store.validate_secure_metadata nordfir.Files.metadata_of
    nordfir.Files.grants_others nordfir.Files.third nordfir.Files.find_uid
    nordfir.Files.effective_uid nordfir.Files.validate_secure_directory nordfir.Files.sync_directory
    load load_fresh_for_write nordfir.State.Store.load_from nordfir.State.Store.load_for_write
    nordfir.State.Store.check_age encode nordfir.State.OriginalPower.state_header
    nordfir.State.OriginalPower.validate_token nordfir.State.OriginalPower.validate
    nordfir.State.OriginalPower.checked nordfir.State.OriginalPower.current_state
    nordfir.State.OriginalPower.entry capture state_text str nordfir.Base.text_eq
    nordfir.Format.decimal nordfir.Format.parse_unsigned nordfir.Format.parse_radix
    nordfir.Format.parse_digits nordfir.Format.push_digit nordfir.Format.to_digit
    nordfir.Format.is_digit nordfir.Format.lines nordfir.Format.split_once
    nordfir.Format.is_token_char nordfir.Format.is_token nordfir.Format.join
    nordfir.Format.with_separator nordfir.Format.strip_prefix nordfir.Format.split_whitespace
    nordfir.Format.is_whitespace nordfir.Format.Strings.words_from nordfir.Format.Strings.keep_word
    nordfir.Core.get nordfir.Base.Time.duration_since
was_saved = refl

load-save_example :
    (active ≡ state_path root (str "local"))
    × (load ⦃f = milli⦄ disk root (str "local") (save disk ⦃f = milli⦄ root saved empty_disk).1
        ≡ ok saved)
load-save_example =
    load-save disk disk_documented ⦃f = milli⦄ root milli-IsPrinted saved empty_disk (omega arith)
      was_saved

was_loaded :
    load_fresh_for_write ⦃f = milli⦄ disk root
      (str "local")
      (since 5_000_000_000)
      900_000_000_000
      full_disk
    ≡ ok saved
unfolding state_path nordfir.State.Store.state_suffix archive_path archived_name
    nordfir.State.Store.path_for nordfir.State.Store.validate_secure_metadata
    nordfir.Files.metadata_of nordfir.Files.grants_others nordfir.Files.third nordfir.Files.find_uid
    nordfir.Files.effective_uid nordfir.Files.validate_secure_directory nordfir.Files.sync_directory
    load load_fresh_for_write nordfir.State.Store.load_from nordfir.State.Store.load_for_write
    nordfir.State.Store.check_age decode nordfir.State.OriginalPower.decode_lines
    nordfir.State.OriginalPower.decode_fields nordfir.State.OriginalPower.counted_fields
    nordfir.State.OriginalPower.from_fields nordfir.State.OriginalPower.saved_state
    nordfir.State.OriginalPower.parse_field nordfir.State.OriginalPower.required_field
    nordfir.State.OriginalPower.read_fields nordfir.State.OriginalPower.read_line
    nordfir.State.OriginalPower.insert_field encode nordfir.State.OriginalPower.state_header
    nordfir.State.OriginalPower.validate_token nordfir.State.OriginalPower.validate
    nordfir.State.OriginalPower.checked nordfir.State.OriginalPower.current_state
    nordfir.State.OriginalPower.entry capture state_text str nordfir.Base.text_eq
    nordfir.Format.decimal nordfir.Format.parse_unsigned nordfir.Format.parse_radix
    nordfir.Format.parse_digits nordfir.Format.push_digit nordfir.Format.to_digit
    nordfir.Format.is_digit nordfir.Format.lines nordfir.Format.split_once
    nordfir.Format.is_token_char nordfir.Format.is_token nordfir.Format.join
    nordfir.Format.with_separator nordfir.Format.strip_prefix nordfir.Format.split_whitespace
    nordfir.Format.is_whitespace nordfir.Format.Strings.words_from nordfir.Format.Strings.keep_word
    nordfir.Core.get nordfir.Base.Time.duration_since
was_loaded = refl

load_fresh_safe_example :
    IsLoaded ⦃f = milli⦄ disk root (str "local") saved full_disk
    × IsSecure disk root (state_path root (str "local")) full_disk
    × IsRecent ⦃f = milli⦄ disk root saved (since 5_000_000_000) 900_000_000_000
load_fresh_safe_example =
    load_fresh_safe ⦃f = milli⦄ disk root (str "local") (since 5_000_000_000) 900_000_000_000
      full_disk was_loaded

retire-IsKept_example :
    IsKept disk disk_documented Milli ⦃f = milli⦄ root
      (str "local")
      saved_text
      (retire disk Milli ⦃f = milli⦄ root (str "local") full_disk)
retire-IsKept_example =
    retire-IsKept disk disk_documented Milli ⦃f = milli⦄ root (str "local") saved_text full_disk
      kept

other_file : str "/proc/self/status" ≢ state_path root (str "local")
unfolding str nordfir.Base.text_eq state_path nordfir.State.Store.state_suffix nordfir.Format.join
    nordfir.Format.with_separator
other_file = text-ne (str "/proc/self/status") (state_path root (str "local")) refl

retire_keeps_example :
    Holds disk disk_documented
      (str "/proc/self/status")
      (str "Uid:\t991\t991\t991\t991\n")
      (retire disk Milli ⦃f = milli⦄ root (str "local") empty_disk).1
retire_keeps_example =
    retire_keeps disk disk_documented Milli ⦃f = milli⦄ root (str "local") (str "/proc/self/status")
      (str "Uid:\t991\t991\t991\t991\n") empty_disk other_file held
