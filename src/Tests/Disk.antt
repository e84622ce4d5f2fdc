-- ===== src/Tests/Disk.antt =====
-- A disk for the tests: what each path holds, and its documented behaviour.
use mathlib.Core.Path.{subst}
use nordfir.Base.{
  ◌≡◌, refl, sym, ap, ◌∙◌, ◌≢◌, inl, inr, Bool, true, false, not, ◌||◌, Option, none, some, [],
  ◌++◌, Text, str, text_eq, text_eq_iff, Result, ok, err, ok_or, ok-injective, Bool-cases,
  Option-cases, if◌then◌else◌,
}
use nordfir.Base.Io.{Io}
use nordfir.Format.{FilePath}
use nordfir.Files.{FileSystem, Lookup}
use nordfir.Files.Laws.{IsFileSystem}
use nordfir.Drivers.LinuxRest.{Sysfs}
use nordfir.Drivers.LinuxRest.Files.{HasSeparateFiles}

abbrev pub Disk : Type 0
Disk = FilePath → Option Text

abbrev pub put : FilePath → Option Text → Disk → Disk
put p v d q = if text_eq q p then v else d q

put-other : (p q : FilePath) (v : Option Text) (d : Disk) → q ≢ p → put p v d q ≡ d q
put-other p q v d apart = elim (Bool-cases (text_eq q p)) [
  | inl e ↦ absurd (apart ((text_eq_iff q p).0 e))
  | inr e ↦ rw e refl
]

put-same : (p : FilePath) (v : Option Text) (d : Disk) → put p v d p ≡ v
put-same p v d = rw ((text_eq_iff p p).1 refl) refl

abbrev read : FilePath → Disk → Result Text
read p d = ok_or (d p) (str "not found")

abbrev create : Option Text → FilePath → Io Disk (Unit {0})
create (some t) p d = (err (str "exists"), d)
create none p d = (ok tt, put p (some []) d)

abbrev add : Option Text → FilePath → Text → Io Disk (Unit {0})
add none p t d = (err (str "not found"), d)
add (some u) p t d = (ok tt, put p (some (u ++ t)) d)

-- The contents of the source and of the destination.
abbrev link : Option Text → Option Text → FilePath → Io Disk (Unit {0})
link none there q d = (err (str "not found"), d)
link (some t) none q d = (ok tt, put q (some t) d)
link (some t) (some u) q d = (err (str "exists"), d)

abbrev is_directory : FilePath → Bool
is_directory p = text_eq p (str "/state") || text_eq p (str "/state/archive")

abbrev lookup : FilePath → Lookup
lookup p = Lookup.found (record {
  is_file = not (is_directory p);
  is_dir = is_directory p;
  is_symlink = false;
  is_socket = false;
  mode = 384;
  uid = 991;
})

-- The file as it is, or an empty one.
abbrev touch : Option Text → FilePath → Io Disk (Unit {0})
touch none p d = (ok tt, put p (some []) d)
touch (some t) p d = (ok tt, d)

abbrev find : Option Text → FilePath → Lookup
find none p = if is_directory p then lookup p else Lookup.missing (str "not found")
find (some t) p = lookup p

abbrev pub disk : FileSystem Disk
disk = record {
  read_to_string = read;
  symlink_metadata = λ p d. find (d p) p;
  exists = λ p d. true;
  is_dir = λ p d. true;
  readonly = λ p d. ok false;
  read_dir = λ p d. ok [];
  create_dir_all = λ p d. (ok tt, d);
  set_permissions = λ p m d. (ok tt, d);
  create_new = λ p m d. create (d p) p d;
  write_and_sync = λ p t d. add (d p) p t d;
  write = λ p t d. (ok tt, put p (some t) d);
  open_append = λ p m d. touch (d p) p d;
  append_and_sync = λ p t d. add (d p) p t d;
  remove_file = λ p d. (ok tt, put p none d);
  hard_link = λ p q d. link (d p) (d q) q d;
  open_and_sync = λ p d. (ok tt, d);
}

read-eq-ok : (p : FilePath) (d : Disk) {t : Text} → read p d ≡ ok t → d p ≡ some t
read-eq-ok p d h = elim (Option-cases (d p)) [
  | inl e ↦ let bad = (rw e at h) in cc
  | inr (u, e) ↦ let same = (rw e at h) in e ∙ ap (λ (x : Text). some x) (ok-injective same)
]

read-put_other :
    (p q : FilePath) (v : Option Text) (d : Disk) → q ≢ p → read q (put p v d) ≡ read q d
read-put_other p q v d apart =
    ap (λ (x : Option Text). ok_or x (str "not found")) (put-other p q v d apart)

read-put_same : (p : FilePath) (t : Text) (d : Disk) → read p (put p (some t) d) ≡ ok t
read-put_same p t d = ap (λ (x : Option Text). ok_or x (str "not found")) (put-same p (some t) d)

create-failed :
    (o : Option Text) (p q : FilePath) (d : Disk) (e : Text)
    → (create o p d).0 ≡ err e
    → read q (create o p d).1 ≡ read q d
create-failed (some t) p q d e h = refl
create-failed none p q d e h = cc

create-other :
    (o : Option Text) (p q : FilePath) (d : Disk) → q ≢ p → read q (create o p d).1 ≡ read q d
create-other (some t) p q d apart = refl
create-other none p q d apart = read-put_other p q (some []) d apart

create-empty :
    (o : Option Text) (p : FilePath) (d : Disk)
    → (create o p d).0 ≡ ok tt
    → read p (create o p d).1 ≡ ok []
create-empty (some t) p d h = cc
create-empty none p d h = read-put_same p [] d

create-existing :
    (o : Option Text) (p : FilePath) (d : Disk) (t : Text) → o ≡ some t → (create o p d).0 ≢ ok tt
create-existing (some u) p d t h e = cc
create-existing none p d t h e = cc

add-other :
    (o : Option Text) (p q : FilePath) (t : Text) (d : Disk)
    → q ≢ p
    → read q (add o p t d).1 ≡ read q d
add-other none p q t d apart = refl
add-other (some u) p q t d apart = read-put_other p q (some (u ++ t)) d apart

add-appends :
    (o : Option Text) (p : FilePath) (t u : Text) (d : Disk)
    → o ≡ some u
    → read p (add o p t d).1 ≡ ok (u ++ t)
add-appends o p t u d h =
    subst (λ x. read p (add x p t d).1 ≡ ok (u ++ t)) (sym h) (read-put_same p (u ++ t) d)

link-existing :
    (o v : Option Text) (q : FilePath) (d : Disk) (t : Text) → v ≡ some t → (link o v q d).0 ≢ ok tt
link-existing none v q d t h e = cc
link-existing (some u) none q d t h e = cc
link-existing (some u) (some w) q d t h e = cc

link-failed :
    (o v : Option Text) (q r : FilePath) (d : Disk) (e : Text)
    → (link o v q d).0 ≡ err e
    → read r (link o v q d).1 ≡ read r d
link-failed none v q r d e h = refl
link-failed (some u) none q r d e h = cc
link-failed (some u) (some w) q r d e h = refl

link-other :
    (o v : Option Text) (q r : FilePath) (d : Disk) → r ≢ q → read r (link o v q d).1 ≡ read r d
link-other none v q r d apart = refl
link-other (some u) none q r d apart = read-put_other q r (some u) d apart
link-other (some u) (some w) q r d apart = refl

link-same :
    (o v : Option Text) (q : FilePath) (d : Disk)
    → (link o v q d).0 ≡ ok tt
    → read q (link o v q d).1 ≡ ok_or o (str "not found")
link-same none v q d h = cc
link-same (some u) none q d h = read-put_same q u d
link-same (some u) (some w) q d h = cc

touch-existing :
    (o : Option Text) (p q : FilePath) (d : Disk) (t : Text)
    → d q ≡ o
    → read p d ≡ ok t
    → read p (touch o q d).1 ≡ ok t
touch-existing (some u) p q d t _ h = h
touch-existing none p q d t e h = elim (Bool-cases (text_eq p q)) [
  | inl same ↦ let bad = sym (read-eq-ok p d h) ∙ ap d ((text_eq_iff p q).0 same) ∙ e in cc
  | inr apart ↦ rw apart h
]

touch-new :
    (o : Option Text) (p : FilePath) (d : Disk) (e : Text)
    → d p ≡ o
    → find o p ≡ Lookup.missing e
    → read p (touch o p d).1 ≡ ok []
touch-new (some u) p d e _ h = cc
touch-new none p d e _ h = read-put_same p [] d

pub disk_documented : IsFileSystem disk
disk_documented = record {
  read-create_dir_all = λ p d s. refl;
  read-set_permissions = λ p d m s. refl;
  read-open_and_sync = λ p d s. refl;
  create_new_existing = λ p m s t h. create-existing (s p) p s t (read-eq-ok p s h);
  create_new_failed = λ p q m s e h. create-failed (s p) p q s e h;
  create_new_other = λ p q m s d. create-other (s p) p q s d;
  create_new_empty = λ p m s h. create-empty (s p) p s h;
  write_other = λ p q t s d. add-other (s p) p q t s d;
  write_appends = λ p t u s h k. add-appends (s p) p t u s (read-eq-ok p s h);
  read-write = λ p q t s d. read-put_other q p (some t) s d;
  open_append_existing = λ p q m s t h. touch-existing (s q) p q s t refl h;
  open_append_new = λ p m s e h k. touch-new (s p) p s e refl h;
  append_other = λ p q t s d. add-other (s p) p q t s d;
  append_appends = λ p t u s h k. add-appends (s p) p t u s (read-eq-ok p s h);
  remove_other = λ p q s d. read-put_other p q none s d;
  hard_link_existing = λ p q s t h. link-existing (s p) (s q) q s t (read-eq-ok q s h);
  hard_link_failed = λ p q r s e h. link-failed (s p) (s q) q r s e h;
  hard_link_other = λ p q r s d. link-other (s p) (s q) q r s d;
  hard_link_same = λ p q s h. link-same (s p) (s q) q s h;
}

-- A kernel that refuses to write one text.
abbrev write_unless : Bool → FilePath → Text → Io Disk (Unit {0})
write_unless true p t d = (err (str "refused"), d)
write_unless false p t d = (ok tt, put p (some t) d)

abbrev pub sysfs : Text → Sysfs Disk
sysfs refused = record { read = read; write = λ p t d. write_unless (text_eq t refused) p t d }

read-write_unless :
    (b : Bool) (p q : FilePath) (t : Text) (d : Disk)
    → p ≢ q
    → read p (write_unless b q t d).1 ≡ read p d
read-write_unless true p q t d apart = refl
read-write_unless false p q t d apart = read-put_other q p (some t) d apart

pub sysfs_separate : (refused : Text) → HasSeparateFiles (sysfs refused)
sysfs_separate refused = record {
  read-write = λ p q t d apart. read-write_unless (text_eq t refused) p q t d apart;
}
