-- ===== src/State/Store/Archived.antt =====
-- original_power.rs, `retire`: what moving the file into the archive does.
use mathlib.Core.Path.{subst}
use nordfir.Base.{
  ℕ, ◌≡◌, refl, sym, ap, ◌∙◌, ◌≢◌, ◌⊎◌, inl, inr, [], ◌∷◌, Text, str, ◌++◌, append_cancel_left,
  Lacks, All-append, Lacks-of_all, append_assoc, Result, ok, ok-injective, Result-cases,
}
use nordfir.Base.Io.{
  Io, pure, context, ◌>>=◌, >>=-cases, >>=-eq-ok, Keeps, Keeps->>=, context-eq-ok,
}
use nordfir.Format.{FilePath, join, with_separator, is_token_char}
use nordfir.Core.{NodeId}
use nordfir.Files.{FileSystem, sync_directory}
use nordfir.Files.Laws.{IsFileSystem}
use nordfir.State.OriginalPower.Validity.{IsToken, token-Lacks}
use nordfir.State.Store.{state_path, state_suffix, archive_path, archived_name}
use nordfir.State.Store.Saved.{Holds, make_directory-Keeps, close_new-Keeps}
use nordfir.State.Store.Operations.{
  close_new, make_directory, unlink_active, archive_file, validate_archive, prepare_archive,
}

-- The name of an archived file holds a separator behind the root, that of an active file does not.
with_separator-append :
    (p : Text) (c : ℕ) (t : Text) → with_separator (p ++ c ∷ t) ≡ p ++ with_separator (c ∷ t)
unfolding with_separator
with_separator-append [] c t = refl
with_separator-append (d ∷ []) c t = refl
with_separator-append (d ∷ e ∷ p) c t = ap (◌∷◌ d) (with_separator-append (e ∷ p) c t)

state_suffix-Lacks : Lacks b'/' state_suffix
unfolding state_suffix str
state_suffix-Lacks = Lacks-of_all b'/' state_suffix refl

separator-ne :
    (node name : Text) → IsToken node → node ++ state_suffix ≢ (str "archive" ++ b'/' ∷ []) ++ name
unfolding str is_token_char
separator-ne node name token h =
    let absent =
      subst (Lacks b'/') h
        (All-append _ node state_suffix (token-Lacks b'/' refl token) state_suffix-Lacks) in
    absurd (absent.1.1.1.1.1.1.1.0 refl)

archive_separator :
    (p : Text) → with_separator (p ++ str "archive") ≡ p ++ (str "archive" ++ b'/' ∷ [])
unfolding with_separator str
archive_separator p = with_separator-append p b'a' (str "rchive")

pub active-ne-archived :
    (root : FilePath) (node : NodeId) (n : ℕ)
    → IsToken node
    → state_path root node ≢ join (archive_path root) (archived_name node n)
unfolding state_path archive_path join
active-ne-archived root node n token h = separator-ne node (archived_name node n) token (
    append_cancel_left (with_separator root) (
      h
      ∙ ap (λ (x : Text). x ++ archived_name node n) (archive_separator (with_separator root))
      ∙ append_assoc (with_separator root) (str "archive" ++ b'/' ∷ []) (archived_name node n)))

module _ {S : Type 0} (fs : FileSystem S) (laws : IsFileSystem fs) where
  sync_directory-Keeps :
      (p : FilePath) (t : Text) (d : FilePath) → Keeps (Holds fs laws p t) (sync_directory fs d)
  unfolding sync_directory
  sync_directory-Keeps p t d s h = laws.read-open_and_sync p d s ∙ h

  pub prepare_archive-Keeps :
      (p : FilePath) (t : Text) (root : FilePath)
      → Keeps (Holds fs laws p t) (prepare_archive fs root)
  unfolding prepare_archive validate_archive
  prepare_archive-Keeps p t root s h =
      Keeps->>= (Holds fs laws p t)
        (make_directory fs (str "archive directory ") (archive_path root)) _
        (make_directory-Keeps fs laws p t (str "archive directory ") (archive_path root))
        (λ _.
          Keeps->>= (Holds fs laws p t)
            (close_new fs (str "archive directory ") (archive_path root)
              (fs.exists (archive_path root) s))
            _
            (close_new-Keeps fs laws p t (str "archive directory ") (archive_path root)
              (fs.exists (archive_path root) s))
            (λ _ _ h. h))
        s h

  unlink_active-Keeps :
      (p : FilePath) (t : Text) (source : FilePath)
      → p ≢ source
      → Keeps (Holds fs laws p t) (unlink_active fs source)
  unfolding unlink_active
  unlink_active-Keeps p t source d s h = laws.remove_other source p s d ∙ h

  -- A link to a new name leaves every file that exists.
  hard_link-Keeps :
      (p : FilePath) (t : Text) (source destination : FilePath)
      → Keeps (Holds fs laws p t) (fs.hard_link source destination)
  hard_link-Keeps p t source destination s h =
      elim (Result-cases (fs.hard_link source destination s).0) [
        | inr (e, bad) ↦ laws.hard_link_failed source destination p s e bad ∙ h
        | inl (u, good) ↦
            laws.hard_link_other source destination p s (λ e.
              laws.hard_link_existing source destination s t (subst (λ q. Holds fs laws q t s) e h)
                good)
            ∙ h
      ]

  -- What follows the link leaves every file but the source.
  archived-Keeps :
      (p : FilePath) (t : Text) (root source destination : FilePath)
      → p ≢ source
      → Keeps (Holds fs laws p t) (
          sync_directory fs (archive_path root) >>= λ _.
          unlink_active fs source >>= λ _. sync_directory fs root >>= λ _. pure destination)
  archived-Keeps p t root source destination d =
      Keeps->>= (Holds fs laws p t) (sync_directory fs (archive_path root)) _
        (sync_directory-Keeps p t (archive_path root))
        (λ _.
          Keeps->>= (Holds fs laws p t) (unlink_active fs source) _
            (unlink_active-Keeps p t source d)
            (λ _.
              Keeps->>= (Holds fs laws p t) (sync_directory fs root) (λ _. pure destination)
                (sync_directory-Keeps p t root) (λ _ _ h. h)))

  pub archive_file-Keeps :
      (p : FilePath) (t : Text) (root source destination : FilePath)
      → p ≢ source
      → Keeps (Holds fs laws p t) (archive_file fs root source destination)
  unfolding archive_file
  archive_file-Keeps p t root source destination d s h =
      Keeps->>= (Holds fs laws p t)
        (context
          (str "archive " ++ source ++ str " as " ++ destination ++ str " without overwrite: ")
          (fs.hard_link source destination))
        _ (hard_link-Keeps p t source destination)
        (λ _. archived-Keeps p t root source destination d) s h

  archived-eq-ok :
      (root source destination : FilePath) (s : S) {p : FilePath}
      → ((sync_directory fs (archive_path root) >>= λ _.
            unlink_active fs source >>= λ _. sync_directory fs root >>= λ _. pure destination)
          s).0
        ≡ ok p
      → p ≡ destination
  archived-eq-ok root source destination s h =
      let (_, _, step) =
        >>=-eq-ok (sync_directory fs (archive_path root))
          (λ _. unlink_active fs source >>= λ _. sync_directory fs root >>= λ _. pure destination) s
          h in
      let h1 = sym (ap (λ x. x.0) step) ∙ h in
      let s1 = (sync_directory fs (archive_path root) s).1 in
      let (_, _, step1) =
        >>=-eq-ok (unlink_active fs source) (λ _. sync_directory fs root >>= λ _. pure destination)
          s1 h1 in
      let h2 = sym (ap (λ x. x.0) step1) ∙ h1 in
      let (_, _, step2) =
        >>=-eq-ok (sync_directory fs root) (λ _. pure destination) (unlink_active fs source s1).1
          h2 in
      sym (ok-injective (sym (ap (λ x. x.0) step2) ∙ h2))

  -- The source is there, or the destination holds what it held, and it does after a success.
  abbrev pub IsMoved : FilePath → FilePath → Text → Result FilePath × S → Type 0
  IsMoved source destination c (r, s) =
      (Holds fs laws source c s ⊎ Holds fs laws destination c s)
      × ((p : FilePath) → r ≡ ok p → (p ≡ destination) × Holds fs laws destination c s)

  pub archive_file-IsMoved :
      (root source destination : FilePath) (c : Text) (s : S)
      → source ≢ destination
      → Holds fs laws source c s
      → IsMoved source destination c (archive_file fs root source destination s)
  unfolding archive_file
  archive_file-IsMoved root source destination c s d h =
      let link =
        context
          (str "archive " ++ source ++ str " as " ++ destination ++ str " without overwrite: ")
          (fs.hard_link source destination) in
      let next : Unit {0} → Io S FilePath = λ _. sync_directory fs (archive_path root) >>= λ _.
      unlink_active fs source >>= λ _. sync_directory fs root >>= λ _. pure destination in
      elim (>>=-cases link next s) [
        | inr (e, bad, step) ↦
            subst (IsMoved source destination c) (sym step)
              (inl (hard_link-Keeps source c source destination s h), λ p r. cc)
        | inl (u, good, step) ↦
            let linked =
              laws.hard_link_same source destination s
                (context-eq-ok _ (fs.hard_link source destination) s good)
              ∙ h in
            let kept =
              archived-Keeps destination c root source destination (λ e. d (sym e)) (link s).1
                linked in
            subst (IsMoved source destination c) (sym step)
              (inr kept, λ p r. (archived-eq-ok root source destination (link s).1 r, kept))
      ]
