-- ===== src/Files/Laws.antt =====
-- Documented behaviour of the file operations: what each of them leaves in the files.
use nordfir.Base.{ℕ, ◌≡◌, ◌≢◌, [], ◌++◌, Text, ok, err}
use nordfir.Format.{FilePath}
use nordfir.Files.{FileSystem, Lookup}

pub record IsFileSystem {S : Type 0} (fs : FileSystem S) : Type 0 where
  -- directories, permissions and syncing do not touch what files hold
  pub read-create_dir_all :
      (p d : FilePath) (s : S)
      → fs.read_to_string p (fs.create_dir_all d s).1 ≡ fs.read_to_string p s
  pub read-set_permissions :
      (p d : FilePath) (m : ℕ) (s : S)
      → fs.read_to_string p (fs.set_permissions d m s).1 ≡ fs.read_to_string p s
  pub read-open_and_sync :
      (p d : FilePath) (s : S)
      → fs.read_to_string p (fs.open_and_sync d s).1 ≡ fs.read_to_string p s
  -- `create_new` fails on an existing file, and otherwise makes an empty one
  pub create_new_existing :
      (p : FilePath) (m : ℕ) (s : S) (t : Text)
      → fs.read_to_string p s ≡ ok t
      → (fs.create_new p m s).0 ≢ ok tt
  pub create_new_failed :
      (p q : FilePath) (m : ℕ) (s : S) (e : Text)
      → (fs.create_new p m s).0 ≡ err e
      → fs.read_to_string q (fs.create_new p m s).1 ≡ fs.read_to_string q s
  pub create_new_other :
      (p q : FilePath) (m : ℕ) (s : S)
      → q ≢ p
      → fs.read_to_string q (fs.create_new p m s).1 ≡ fs.read_to_string q s
  pub create_new_empty :
      (p : FilePath) (m : ℕ) (s : S)
      → (fs.create_new p m s).0 ≡ ok tt
      → fs.read_to_string p (fs.create_new p m s).1 ≡ ok []
  -- a write goes behind what the file holds
  pub write_other :
      (p q : FilePath) (t : Text) (s : S)
      → q ≢ p
      → fs.read_to_string q (fs.write_and_sync p t s).1 ≡ fs.read_to_string q s
  pub write_appends :
      (p : FilePath) (t u : Text) (s : S)
      → fs.read_to_string p s ≡ ok u
      → (fs.write_and_sync p t s).0 ≡ ok tt
      → fs.read_to_string p (fs.write_and_sync p t s).1 ≡ ok (u ++ t)
  pub remove_other :
      (p q : FilePath) (s : S)
      → q ≢ p
      → fs.read_to_string q (fs.remove_file p s).1 ≡ fs.read_to_string q s
  -- `hard_link` fails on an existing destination, and otherwise gives the file a second name
  pub hard_link_existing :
      (p q : FilePath) (s : S) (t : Text)
      → fs.read_to_string q s ≡ ok t
      → (fs.hard_link p q s).0 ≢ ok tt
  pub hard_link_failed :
      (p q r : FilePath) (s : S) (e : Text)
      → (fs.hard_link p q s).0 ≡ err e
      → fs.read_to_string r (fs.hard_link p q s).1 ≡ fs.read_to_string r s
  pub hard_link_other :
      (p q r : FilePath) (s : S)
      → r ≢ q
      → fs.read_to_string r (fs.hard_link p q s).1 ≡ fs.read_to_string r s
  pub hard_link_same :
      (p q : FilePath) (s : S)
      → (fs.hard_link p q s).0 ≡ ok tt
      → fs.read_to_string q (fs.hard_link p q s).1 ≡ fs.read_to_string p s
  -- `fs::write` changes its file only
  pub read-write :
      (p q : FilePath) (t : Text) (s : S)
      → p ≢ q
      → fs.read_to_string p (fs.write q t s).1 ≡ fs.read_to_string p s
  -- to open for appending makes an empty file of one that is missing, and changes no other
  pub open_append_existing :
      (p q : FilePath) (m : ℕ) (s : S) (t : Text)
      → fs.read_to_string p s ≡ ok t
      → fs.read_to_string p (fs.open_append q m s).1 ≡ ok t
  pub open_append_new :
      (p : FilePath) (m : ℕ) (s : S) (e : Text)
      → fs.symlink_metadata p s ≡ Lookup.missing e
      → (fs.open_append p m s).0 ≡ ok tt
      → fs.read_to_string p (fs.open_append p m s).1 ≡ ok []
  -- what is appended goes behind what the file holds
  pub append_other :
      (p q : FilePath) (t : Text) (s : S)
      → q ≢ p
      → fs.read_to_string q (fs.append_and_sync p t s).1 ≡ fs.read_to_string q s
  pub append_appends :
      (p : FilePath) (t u : Text) (s : S)
      → fs.read_to_string p s ≡ ok u
      → (fs.append_and_sync p t s).0 ≡ ok tt
      → fs.read_to_string p (fs.append_and_sync p t s).1 ≡ ok (u ++ t)
