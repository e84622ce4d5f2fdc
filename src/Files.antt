-- ===== src/Files.antt =====
-- `std::fs` and `std::os::unix::fs` as the program calls them, over a state `S` of the disk, and the
-- checks of owner and permissions of archive/rust/src/state/original_power.rs.
pub mod Laws
use nordfir.Base.{
  ℕ, ◌%◌, ◌/◌, Bool, true, false, not, ◌||◌, Option, none, some, List, [], ◌∷◌, ◌++◌, Text, str,
  Result, ok, err, ◌>>=◌, ◌>>◌, refuse, ok_or, context, ◌==◌,
}
use nordfir.Base.Io.{Io}
use nordfir.Format.{FilePath, lines, strip_prefix, split_whitespace, parse_unsigned, max_u32}

pub record Metadata : Type 0 where
  pub is_file : Bool
  pub is_dir : Bool
  pub is_symlink : Bool
  pub is_socket : Bool
  pub mode : ℕ
  pub uid : ℕ

-- What `symlink_metadata` finds; `missing` is an error of the kind `NotFound`.
pub data Lookup : Type 0 where
  found : Metadata → Lookup
  missing : Text → Lookup
  failed : Text → Lookup

pub record FileSystem (S : Type 0) : Type 0 where
  pub read_to_string : FilePath → S → Result Text
  pub symlink_metadata : FilePath → S → Lookup
  pub exists : FilePath → S → Bool
  pub is_dir : FilePath → S → Bool
  -- `metadata(path).permissions().readonly()`
  pub readonly : FilePath → S → Result Bool
  -- `read_dir`, with each entry's name
  pub read_dir : FilePath → S → Result (List (Result Text))
  pub create_dir_all : FilePath → Io S (Unit {0})
  pub set_permissions : FilePath → ℕ → Io S (Unit {0})
  -- `open` with `create_new(true)` and a mode
  pub create_new : FilePath → ℕ → Io S (Unit {0})
  -- `write_all` to the file that was opened, and `sync_all`
  pub write_and_sync : FilePath → Text → Io S (Unit {0})
  -- `fs::write`
  pub write : FilePath → Text → Io S (Unit {0})
  -- `open` with `append(true)`, `create(true)` and a mode
  pub open_append : FilePath → ℕ → Io S (Unit {0})
  -- `write_all` to the file that was opened to append, and `sync_data`
  pub append_and_sync : FilePath → Text → Io S (Unit {0})
  pub remove_file : FilePath → Io S (Unit {0})
  pub hard_link : FilePath → FilePath → Io S (Unit {0})
  -- `File::open` of a directory, and `sync_all`
  pub open_and_sync : FilePath → Io S (Unit {0})

unfoldable pub metadata_of : Lookup → Result Metadata
metadata_of (Lookup.found m) = ok m
metadata_of (Lookup.missing e) = err e
metadata_of (Lookup.failed e) = err e

-- `mode & 0o077 != 0`
unfoldable pub grants_others : ℕ → Bool
grants_others mode = not (mode % 64 == 0)

-- `split_whitespace().nth(2)`
unfoldable pub third : List Text → Option Text
third (a ∷ b ∷ c ∷ more) = some c
third _ = none

-- `find(|line| line.starts_with("Uid:"))`
unfoldable pub find_uid : List Text → Option Text
find_uid [] = none
find_uid (line ∷ more) = elim (strip_prefix (str "Uid:") line) [
  | some _ ↦ some line
  | none ↦ find_uid more
]

module _ {S : Type 0} (fs : FileSystem S) where
  unfoldable pub effective_uid : S → Result ℕ
  effective_uid s = do
    status ←
        context (str "read effective user id: ") (fs.read_to_string (str "/proc/self/status") s)
    line ← ok_or (find_uid (lines status)) (str "effective user id is unavailable")
    word ← ok_or (third (split_whitespace line)) (str "effective user id is malformed")
    context (str "parse effective user id: ") (parse_unsigned max_u32 word)

  unfoldable pub validate_secure_directory : FilePath → S → Result Metadata
  validate_secure_directory path s = do
    directory ←
        context (str "inspect state directory " ++ path ++ str ": ")
          (metadata_of (fs.symlink_metadata path s))
    refuse (not directory.is_dir || directory.is_symlink)
        (str "state directory must be a real directory")
    refuse (grants_others directory.mode)
        (str "state directory permissions must not grant group/other access")
    uid ← effective_uid s
    refuse (not (directory.uid == uid)) (str "state directory must be owned by the effective user")
    ok directory

  unfoldable pub sync_directory : FilePath → Io S (Unit {0})
  sync_directory path s =
      let (r, s') = fs.open_and_sync path s in
      (context (str "sync directory " ++ path ++ str ": ") r, s')
