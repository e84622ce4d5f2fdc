-- ===== src/State/Store/Lifecycle/Reports.antt =====
-- original_power.rs, `inspect_lifecycle`: what it reports is there.
use mathlib.Core.Path.{subst}
use nordfir.Base.{
  ℕ, suc, ◌+◌, ◌≡◌, refl, sym, ap, ◌∙◌, ◌⊎◌, inl, inr, true, false, not, Option, none, some, List,
  [], ◌∷◌, Text, str, text_eq, text_eq_iff, Result, ok, err, map_ok, refuse, context, arith,
  refuse-not-eq-ok, ok-injective, Bool-cases, >>=-eq-ok,
}
use nordfir.Format.{FilePath, join}
use nordfir.Float.{F32}
use nordfir.Core.{NodeId}
use nordfir.Files.{FileSystem, Metadata, Lookup, metadata_of, validate_secure_directory}
use nordfir.State.OriginalPower.{OriginalPowerState, validate_token, decode}
use nordfir.State.Store.{state_path, archive_path, archived_name, path_for, load_for_write}
use nordfir.State.Store.Fresh.{
  IsLoaded, IsSecure, context-eq-ok, path_for-eq-ok, load_for_write-IsLoaded,
}
use nordfir.State.Store.Lifecycle.{
  RecoveryLifecycleStatus, is_snapshot_of, validate_secure_file, check_archived, count_entry,
  count_entries, count_archive, inspect_found, inspect_archive, inspect_active, inspect_snapshots,
  inspect_root, inspect_lifecycle,
}

map_ok-eq-ok {ℓ κ} :
    {A : Type ℓ} {B : Type κ} (g : A → B) (r : Result A) {b : B}
    → map_ok g r ≡ ok b
    → (a : A) × (r ≡ ok a) × (g a ≡ b)
map_ok-eq-ok g (ok a) h = (a, refl, ok-injective h)
map_ok-eq-ok g (err e) h = cc

module _ {S : Type 0} (F : Type 0) ⦃f : F32 F⦄ (fs : FileSystem S) (root : FilePath) (node : NodeId)
    (s : S) where
  -- The archive holds a valid snapshot of the node under the name that its node and its time of capture
  -- give it.
  abbrev pub IsArchived : Text → Type 0
  IsArchived name =
      (content : Text) × (o : OriginalPowerState F) × (fs.read_to_string
          (join (archive_path root) name) s
        ≡ ok content)
      × (decode content ≡ ok o)
      × (o.node ≡ node)
      × (name ≡ archived_name node o.captured_at_unix_seconds)

  -- `Tally entries n`: so many of the entries are snapshots of the node, and the others have other names.
  pub data Tally : List (Result Text) → ℕ → Type 0 where
    none_left : Tally [] 0
    skipped :
        {name : Text} {entries : List (Result Text)} {n : ℕ}
        → is_snapshot_of node name ≡ false
        → Tally entries n
        → Tally (ok name ∷ entries) n
    counted :
        {name : Text} {entries : List (Result Text)} {n : ℕ}
        → is_snapshot_of node name ≡ true
        → IsArchived name
        → Tally entries n
        → Tally (ok name ∷ entries) (suc n)

  check_archived-IsArchived :
      (archive : Metadata) (name : Text)
      → check_archived F fs root node archive name s ≡ ok tt
      → IsArchived name
  unfolding check_archived
  check_archived-IsArchived archive name h =
      let (file, _, h1) = >>=-eq-ok (context _ (metadata_of (fs.symlink_metadata _ s))) _ h in
      let (_, _, h2) = >>=-eq-ok (validate_secure_file file archive) _ h1 in
      let (content, read, h3) = >>=-eq-ok (context _ (fs.read_to_string _ s)) _ h2 in
      let (o, decoded, h4) = >>=-eq-ok (decode {F = F} content) _ h3 in
      let (_, owner, last) = >>=-eq-ok (refuse (not (text_eq o.node node)) _) _ h4 in
      (
        content,
        o,
        context-eq-ok _ _ read,
        decoded,
        (text_eq_iff o.node node).0 (refuse-not-eq-ok _ _ owner),
        (text_eq_iff name (archived_name node o.captured_at_unix_seconds)).0
            (refuse-not-eq-ok _ _ last),
      )

  -- An entry is skipped, or it is a snapshot and counted.
  count_entry-cases :
      (archive : Metadata) (entry : Result Text) (count : ℕ) {next : ℕ}
      → count_entry F fs root node archive entry count s ≡ ok next
      → (name : Text) × (entry ≡ ok name)
        × (((is_snapshot_of node name ≡ false) × (next ≡ count))
            ⊎ ((is_snapshot_of node name ≡ true) × IsArchived name × (next ≡ suc count)))
  unfolding count_entry
  count_entry-cases archive entry count h =
      let (name, read, h1) = >>=-eq-ok (context _ entry) _ h in
      (
        name,
        context-eq-ok _ _ read,
        elim (Bool-cases (is_snapshot_of node name)) [
          | inl mine ↦
              let (_, checked, same) =
                map_ok-eq-ok (λ _. suc count) (check_archived F fs root node archive name s)
                  (rw mine at h1) in
              inr (mine, check_archived-IsArchived archive name checked, sym same)
          | inr other ↦ inl (other, sym (ok-injective (rw other at h1)))
        ],
      )

  count_entries-Tally :
      (archive : Metadata) (entries : List (Result Text)) (count : ℕ) {total : ℕ}
      → count_entries F fs root node archive entries count s ≡ ok total
      → (n : ℕ) × Tally entries n × (total ≡ n + count)
  unfolding count_entries
  count_entries-Tally archive [] count h = (0, Tally.none_left, omega (arith, sym (ok-injective h)))
  count_entries-Tally archive (entry ∷ entries) count h =
      let (next, first, rest) = >>=-eq-ok (count_entry F fs root node archive entry count s) _ h in
      let (n, tally, sum) = count_entries-Tally archive entries next rest in
      let (name, same, how) = count_entry-cases archive entry count first in
      elim how [
        | inl (other, kept) ↦ (
          n,
          subst (λ x. Tally (x ∷ entries) n) (sym same) (Tally.skipped other tally),
          omega arith,
        )
        | inr (mine, archived, more) ↦ (
          suc n,
          subst (λ x. Tally (x ∷ entries) (suc n)) (sym same) (Tally.counted mine archived tally),
          omega arith,
        )
      ]

  -- The archive is missing, or the number is that of its snapshots of the node.
  abbrev pub IsCountOfArchive : ℕ → Type 0
  IsCountOfArchive n =
      ((n ≡ 0) × ((e : Text) × (fs.symlink_metadata (archive_path root) s ≡ Lookup.missing e)))
      ⊎ ((entries : List (Result Text)) × (fs.read_dir (archive_path root) s ≡ ok entries)
          × Tally entries n)

  -- The active file is missing, or the state is the valid one of the node that it holds, and the file is
  -- secure.
  abbrev pub IsActive : Option (OriginalPowerState F) → Type 0
  IsActive active =
      ((active ≡ none)
        × ((e : Text) × (fs.symlink_metadata (state_path root node) s ≡ Lookup.missing e)))
      ⊎ ((o : OriginalPowerState F) × (active ≡ some o)
          × IsLoaded fs root node o s
          × IsSecure fs root (state_path root node) s)

  abbrev pub IsReported : RecoveryLifecycleStatus F → Type 0
  IsReported status =
      ((status ≡ record {
        state_directory_initialized = false;
        active_snapshot = none;
        archived_snapshots = 0;
      })
        × ((e : Text) × (fs.symlink_metadata root s ≡ Lookup.missing e)))
      ⊎ ((status.state_directory_initialized ≡ true)
          × IsActive status.active_snapshot
          × IsCountOfArchive status.archived_snapshots)

  inspect_found-count :
      (l : Lookup) {n : ℕ}
      → fs.symlink_metadata (archive_path root) s ≡ l
      → inspect_found F fs root node l s ≡ ok n
      → IsCountOfArchive n
  unfolding inspect_found count_archive
  inspect_found-count (Lookup.missing e) at h = inl (sym (ok-injective h), (e, at))
  inspect_found-count (Lookup.failed e) at h = cc
  inspect_found-count (Lookup.found m) at h =
      let (archive, _, h1) = >>=-eq-ok (validate_secure_directory fs (archive_path root) s) _ h in
      let (entries, read, looped) =
        >>=-eq-ok (context _ (fs.read_dir (archive_path root) s)) _ h1 in
      let (n, tally, sum) = count_entries-Tally archive entries 0 looped in
      inr (entries, context-eq-ok _ _ read, subst (Tally entries) (omega (arith, sum)) tally)

  inspect_active-IsActive :
      (path : FilePath) (l : Lookup) {active : Option (OriginalPowerState F)}
      → path ≡ state_path root node
      → fs.symlink_metadata path s ≡ l
      → inspect_active F fs root node path l s ≡ ok active
      → IsActive active
  unfolding inspect_active
  inspect_active-IsActive path (Lookup.missing e) same at h =
      inl (sym (ok-injective h), (e, ap (λ p. fs.symlink_metadata p s) (sym same) ∙ at))
  inspect_active-IsActive path (Lookup.failed e) same at h = cc
  inspect_active-IsActive path (Lookup.found m) same at h =
      let (o, loaded, is) =
        map_ok-eq-ok (λ state. some state) (load_for_write {F = F} fs root node s) h in
      let (valid, secure) = load_for_write-IsLoaded fs root node s loaded in
      inr (o, sym is, valid, secure)

  inspect_root-IsReported :
      (l : Lookup) {status : RecoveryLifecycleStatus F}
      → fs.symlink_metadata root s ≡ l
      → inspect_root F fs root node l s ≡ ok status
      → IsReported status
  unfolding inspect_root inspect_snapshots inspect_archive
  inspect_root-IsReported (Lookup.missing e) at h = inl (sym (ok-injective h), (e, at))
  inspect_root-IsReported (Lookup.failed e) at h = cc
  inspect_root-IsReported (Lookup.found m) at h =
      let (_, _, h1) =
        >>=-eq-ok (validate_secure_directory fs root s) (λ _. inspect_snapshots F fs root node s)
          h in
      let (path, named, h2) = >>=-eq-ok (path_for root node) _ h1 in
      let (active, seen, h3) =
        >>=-eq-ok (inspect_active F fs root node path (fs.symlink_metadata path s) s) _ h2 in
      let (archived, totalled, last) = >>=-eq-ok (inspect_archive F fs root node s) _ h3 in
      subst IsReported (ok-injective last) (
        inr (
          refl,
          inspect_active-IsActive path (fs.symlink_metadata path s)
              (path_for-eq-ok root node named).1 refl seen,
          inspect_found-count (fs.symlink_metadata (archive_path root) s) refl totalled,
        ))

  -- What `inspect_lifecycle` reports is there: that the state directory is not initialised, where it is
  -- missing; else the active snapshot, which is a valid state of the node in a secure file, or none where
  -- that file is missing; and the number of archived snapshots of the node, each a valid state of the node
  -- under the name that it demands, or 0 where there is no archive.
  pub inspect_lifecycle_reports :
      {status : RecoveryLifecycleStatus F}
      → inspect_lifecycle F fs root node s ≡ ok status
      → IsReported status
  unfolding inspect_lifecycle
  inspect_lifecycle_reports h =
      let (_, _, found) = >>=-eq-ok (validate_token (str "node") node) _ h in
      inspect_root-IsReported (fs.symlink_metadata root s) refl found
