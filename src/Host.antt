-- ===== src/Host.antt =====
-- What the program takes from its surroundings besides files and sockets: the clock, the console, the
-- arguments and the environment.
use nordfir.Base.{◌≡◌, refl, ◌∙◌, ℕ, zero, suc, Option, none, some, List, [], ◌∷◌, Text}
use nordfir.Base.Time.{SystemTime, Duration}
use nordfir.Format.{FilePath}
use nordfir.Files.{FileSystem}
use nordfir.Audit.Sinks.{Sockets}

pub record Host (S : Type 0) : Type 0 where
  pub files : FileSystem S
  pub sockets : Sockets S
  -- `SystemTime::now()`
  pub now : S → SystemTime × S
  -- `thread::sleep`
  pub sleep : Duration → S → S
  -- `println!` of one line
  pub println : Text → S → S
  -- `std::env::args()`
  pub arguments : List Text
  -- `std::env::var_os`
  pub var_os : Text → Option Text

-- `args().nth(n)`
abbrev pub nth : ℕ → List Text → Option Text
nth n [] = none
nth zero (t ∷ ts) = some t
nth (suc n) (t ∷ ts) = nth n ts

module _ {S : Type 0} (host : Host S) where
  abbrev pub argument : ℕ → Option Text
  argument n = nth n host.arguments

  unfoldable pub print_lines : List Text → S → S
  print_lines [] s = s
  print_lines (line ∷ lines) s = print_lines lines (host.println line s)

-- Documented behaviour that the program relies on: none of these changes what files hold.
pub record IsHost {S : Type 0} (host : Host S) : Type 0 where
  pub now_leaves :
      (p : FilePath) (s : S)
      → host.files.read_to_string p (host.now s).1 ≡ host.files.read_to_string p s
  pub now_finds :
      (p : FilePath) (s : S)
      → host.files.symlink_metadata p (host.now s).1 ≡ host.files.symlink_metadata p s
  pub sleep_leaves :
      (p : FilePath) (d : Duration) (s : S)
      → host.files.read_to_string p (host.sleep d s) ≡ host.files.read_to_string p s
  pub println_leaves :
      (p : FilePath) (t : Text) (s : S)
      → host.files.read_to_string p (host.println t s) ≡ host.files.read_to_string p s

module _ {S : Type 0} (host : Host S) (quiet : IsHost host) where
  pub print_lines-leaves :
      (lines : List Text) (p : FilePath) (s : S)
      → host.files.read_to_string p (print_lines host lines s) ≡ host.files.read_to_string p s
  unfolding print_lines
  print_lines-leaves [] p s = refl
  print_lines-leaves (line ∷ lines) p s =
      print_lines-leaves lines p (host.println line s) ∙ quiet.println_leaves p line s
