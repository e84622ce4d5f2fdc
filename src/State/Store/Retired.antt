-- ===== src/State/Store/Retired.antt =====
-- original_power.rs, `retire`: the snapshot moves to the archive and is never lost.
use mathlib.Core.Path.{subst}
use nordfir.Base.{ℕ, ◌≡◌, sym, ap, ◌∙◌, ◌≢◌, ◌⊎◌, inl, inr, Text, Result, ok, err, ok-injective}
use nordfir.Base.Io.{Io, lift, ◌>>=◌, >>=-cases, Keeps->>=}
use nordfir.Format.{FilePath, join}
use nordfir.Float.{F32}
use nordfir.Core.{NodeId}
use nordfir.Files.{FileSystem}
use nordfir.Files.Laws.{IsFileSystem}
use nordfir.State.OriginalPower.{OriginalPowerState, decode}
use nordfir.State.OriginalPower.Validity.{IsToken}
use nordfir.State.Store.{path_for, state_path, archive_path, archived_name, load_for_write}
use nordfir.State.Store.Fresh.{path_for-eq-ok, load_for_write-IsLoaded}
use nordfir.State.Store.Saved.{Holds}
use nordfir.State.Store.Operations.{archive_file, prepare_archive, retire}
use nordfir.State.Store.Archived.{
  active-ne-archived, prepare_archive-Keeps, archive_file-Keeps, IsMoved, archive_file-IsMoved,
}

module _ {S : Type 0} (fs : FileSystem S) (laws : IsFileSystem fs) where
  module _ (F : Type 0) ⦃f : F32 F⦄ (root : FilePath) (node : NodeId) where
    retire_rest : OriginalPowerState F → FilePath → Io S FilePath
    retire_rest state source = prepare_archive fs root >>= λ _.
        archive_file fs root source
          (join (archive_path root) (archived_name node state.captured_at_unix_seconds))

    retire-cases :
        (s : S)
        → ((e : Text) × (retire fs F root node s ≡ (err e, s)))
          ⊎ ((state : OriginalPowerState F) × (load_for_write fs root node s ≡ ok state)
              × IsToken node
              × (retire fs F root node s ≡ retire_rest state (state_path root node) s))
    unfolding retire retire_rest
    retire-cases s =
        elim (>>=-cases (lift (load_for_write fs root node s))
          (λ state. lift (path_for root node) >>= λ source. retire_rest state source) s) [
            | inr (e, bad, step) ↦ inl (e, step)
            | inl (state, loaded, step) ↦
                elim (>>=-cases (lift (path_for root node)) (retire_rest state) s) [
                  | inr (e, bad, step1) ↦ inl (e, step ∙ step1)
                  | inl (source, named, step1) ↦
                      let (token, at) = path_for-eq-ok root node named in
                      inr (
                        state,
                        loaded,
                        token,
                        step ∙ step1 ∙ ap (λ (x : FilePath). retire_rest state x s) at,
                      )
                ]
          ]

    retire_rest-IsMoved :
        (state : OriginalPowerState F) (c : Text) (s : S)
        → IsToken node
        → Holds fs laws (state_path root node) c s
        → IsMoved fs laws
            (state_path root node)
            (join (archive_path root) (archived_name node state.captured_at_unix_seconds))
            c
            (retire_rest state (state_path root node) s)
    unfolding retire_rest
    retire_rest-IsMoved state c s token h =
        let source = state_path root node in
        let destination =
          join (archive_path root) (archived_name node state.captured_at_unix_seconds) in
        elim (>>=-cases (prepare_archive fs root) (λ _. archive_file fs root source destination)
          s) [
            | inr (e, bad, step) ↦
                subst (IsMoved fs laws source destination c) (sym step)
                  (inl (prepare_archive-Keeps fs laws source c root s h), λ p r. cc)
            | inl (u, good, step) ↦ subst (IsMoved fs laws source destination c) (sym step) (
                archive_file-IsMoved fs laws root source destination c (prepare_archive fs root s).1
                  (active-ne-archived root node state.captured_at_unix_seconds token)
                  (prepare_archive-Keeps fs laws source c root s h))
          ]

    -- The snapshot's text is in the active file, or in the archive under the name that its node and
    -- its time of capture give it; there it is after a success, which reports that name.
    abbrev pub IsKept : Text → Result FilePath × S → Type 0
    IsKept c (r, s) =
        (Holds fs laws (state_path root node) c s
          ⊎ ((n : ℕ) × Holds fs laws (join (archive_path root) (archived_name node n)) c s))
        × ((p : FilePath)
            → r ≡ ok p
            → (state : OriginalPowerState F) × (decode c ≡ ok state)
              × (p ≡ join (archive_path root) (archived_name node state.captured_at_unix_seconds))
              × Holds fs laws p c s)

    found :
        (n : ℕ) {c : Text} {s : S}
        → Holds fs laws (state_path root node) c s
          ⊎ Holds fs laws (join (archive_path root) (archived_name node n)) c s
        → Holds fs laws (state_path root node) c s
          ⊎ ((m : ℕ) × Holds fs laws (join (archive_path root) (archived_name node m)) c s)
    found n (inl h) = inl h
    found n (inr h) = inr (n, h)

    -- `retire` never loses the snapshot: whether it succeeds or fails, and wherever it fails, the text
    -- of the active file is still there or in the archive. After a success it is in the archived file
    -- that is reported, whose name holds the node and the time of capture that the text itself states.
    -- The file operations must behave as documented.
    pub retire-IsKept :
        (c : Text) (s : S)
        → Holds fs laws (state_path root node) c s
        → IsKept c (retire fs F root node s)
    retire-IsKept c s h = elim (retire-cases s) [
      | inl (e, step) ↦ subst (IsKept c) (sym step) (inl h, λ p r. cc)
      | inr (state, loaded, token, step) ↦
          let (kept, moved) = retire_rest-IsMoved state c s token h in
          let ((_, (content, read, decoded), _, _), _) =
            load_for_write-IsLoaded fs root node s loaded in
          subst (IsKept c) (sym step) (
            found state.captured_at_unix_seconds kept,
            λ p r.
                let (at, held) = moved p r in
                (
                  state,
                  subst (λ (x : Text). decode x ≡ ok state) (ok-injective (sym read ∙ h)) decoded,
                  at,
                  subst
                      (λ (q : FilePath).
                        Holds fs laws q c (retire_rest state (state_path root node) s).1)
                      (sym at) held,
                ),
          )
    ]

    -- `retire` changes no other file that exists, whether it succeeds or fails: what was archived
    -- before stays as it is. The file operations must behave as documented.
    pub retire_keeps :
        (p : FilePath) (t : Text) (s : S)
        → p ≢ state_path root node
        → Holds fs laws p t s
        → Holds fs laws p t (retire fs F root node s).1
    unfolding retire_rest
    retire_keeps p t s d h = elim (retire-cases s) [
      | inl (e, step) ↦ subst (λ x. Holds fs laws p t x.1) (sym step) h
      | inr (state, loaded, token, step) ↦
          subst (λ x. Holds fs laws p t x.1) (sym step)
            (Keeps->>= (Holds fs laws p t) (prepare_archive fs root) _
              (prepare_archive-Keeps fs laws p t root)
              (λ _.
                archive_file-Keeps fs laws p t root (state_path root node)
                  (join (archive_path root) (archived_name node state.captured_at_unix_seconds)) d)
              s h)
    ]
