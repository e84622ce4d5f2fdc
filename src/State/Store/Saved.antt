-- ===== src/State/Store/Saved.antt =====
-- original_power.rs, `save`: it overwrites nothing, and what it saved can be loaded.
use mathlib.Core.Path.{subst}
use nordfir.Base.{
  ℕ, ◌≤◌, ◌≡◌, refl, sym, ap, ◌∙◌, ◌≢◌, inl, inr, Bool, true, false, not, [], Text, str, ◌++◌,
  text_eq_iff, ok, ok-injective, Result-cases, Bool-cases,
}
use nordfir.Base.Io.{lift, context, ◌>>=◌, >>=-cases, >>=-eq-ok, Keeps, Keeps->>=, context-eq-ok}
use nordfir.Format.{FilePath, max_u64}
use nordfir.Float.{F32, IsPrinted}
use nordfir.Files.{FileSystem}
use nordfir.Files.Laws.{IsFileSystem}
use nordfir.State.OriginalPower.{OriginalPowerState, encode}
use nordfir.State.OriginalPower.RoundTrip.{decode-encode}
use nordfir.State.Store.{path_for, state_path, load, load_from}
use nordfir.State.Store.Fresh.{path_for-eq-ok}
use nordfir.State.Store.Operations.{
  close_new, make_directory, check_directory, prepare_root, write_new, save_at, save,
}

module _ {S : Type 0} (fs : FileSystem S) (laws : IsFileSystem fs) where
  -- The file exists and holds this text.
  abbrev pub Holds : FilePath → Text → S → Type 0
  Holds p t s = fs.read_to_string p s ≡ ok t

  pub make_directory-Keeps :
      (p : FilePath) (t what : Text) (d : FilePath) → Keeps (Holds p t) (make_directory fs what d)
  unfolding make_directory
  make_directory-Keeps p t what d s h = laws.read-create_dir_all p d s ∙ h

  pub close_new-Keeps :
      (p : FilePath) (t what : Text) (d : FilePath) (b : Bool)
      → Keeps (Holds p t) (close_new fs what d b)
  unfolding close_new
  close_new-Keeps p t what d true s h = h
  close_new-Keeps p t what d false s h = laws.read-set_permissions p d 448 s ∙ h

  check_directory-Keeps :
      (p : FilePath) (t : Text) (d : FilePath) → Keeps (Holds p t) (check_directory fs d)
  unfolding check_directory
  check_directory-Keeps p t d s h = elim (Bool-cases (not (fs.is_dir d s))) [
    | inl e ↦ rw (e, check_directory) h
    | inr e ↦ rw (e, check_directory) h
  ]

  prepare_root-Keeps :
      (p : FilePath) (t : Text) (root : FilePath) → Keeps (Holds p t) (prepare_root fs root)
  unfolding prepare_root
  prepare_root-Keeps p t root s h =
      Keeps->>= (Holds p t) (make_directory fs (str "state directory ") root) _
        (make_directory-Keeps p t (str "state directory ") root)
        (λ _.
          Keeps->>= (Holds p t) (check_directory fs root) _ (check_directory-Keeps p t root)
            (λ _. close_new-Keeps p t (str "state directory ") root (fs.exists root s)))
        s h

  write_new-Keeps :
      (p : FilePath) (t : Text) (path : FilePath) (encoded : Text)
      → p ≢ path
      → Keeps (Holds p t) (write_new fs path encoded)
  unfolding write_new
  write_new-Keeps p t path encoded d s h =
      elim (Result-cases (fs.write_and_sync path encoded s).0) [
        | inl (u, e) ↦ rw (e, write_new) (laws.write_other path p encoded s d ∙ h)
        | inr (x, e) ↦
            rw (e, write_new)
              (laws.remove_other path p _ d ∙ laws.write_other path p encoded s d ∙ h)
      ]

  create_new-Keeps :
      (p : FilePath) (t : Text) (path : FilePath) (m : ℕ) → Keeps (Holds p t) (fs.create_new path m)
  create_new-Keeps p t path m s h = elim (Result-cases (fs.create_new path m s).0) [
    | inr (e, bad) ↦ laws.create_new_failed path p m s e bad ∙ h
    | inl (u, good) ↦ laws.create_new_other path p m s (λ e. made_new p t path m s h good e) ∙ h
  ]
    where
      made_new :
          (p : FilePath) (t : Text) (path : FilePath) (m : ℕ) (s : S)
          → Holds p t s
          → (fs.create_new path m s).0 ≡ ok tt
          → p ≢ path
      made_new p t path m s h good e =
          laws.create_new_existing path m s t (subst (λ q. Holds q t s) e h) good

  -- The file that is made did not exist, so that one that does is another one.
  save_at-Keeps :
      (p : FilePath) (t : Text) (path : FilePath) (encoded : Text)
      → Keeps (Holds p t) (save_at fs path encoded)
  unfolding save_at
  save_at-Keeps p t path encoded s h =
      let create =
        context (str "create " ++ path ++ str " without overwrite: ") (fs.create_new path 384) in
      let kept = create_new-Keeps p t path 384 s h in
      elim (>>=-cases create (λ _. write_new fs path encoded) s) [
        | inr (e, bad, step) ↦ subst (λ x. Holds p t x.1) (sym step) kept
        | inl (u, good, step) ↦
            subst (λ x. Holds p t x.1) (sym step)
              (write_new-Keeps p t path encoded
                (λ e.
                  laws.create_new_existing path 384 s t (subst (λ q. Holds q t s) e h)
                    (context-eq-ok _ (fs.create_new path 384) s good))
                (create s).1 kept)
      ]

  -- `save` never changes a file that exists, the snapshot of the node included, whether it succeeds or
  -- fails. The file operations must behave as documented.
  pub save_keeps :
      {F : Type 0} ⦃f : F32 F⦄ (root : FilePath) (state : OriginalPowerState F) (p : FilePath)
      (t : Text) (s : S)
      → Holds p t s
      → Holds p t (save fs root state s).1
  unfolding save
  save_keeps root state p t s h =
      Keeps->>= (Holds p t) (lift (encode state)) _ (λ _ h. h)
        (λ encoded.
          Keeps->>= (Holds p t) (prepare_root fs root) _ (prepare_root-Keeps p t root) (λ _.
            Keeps->>= (Holds p t) (lift (path_for root state.node)) _ (λ _ h. h)
              (λ path. save_at-Keeps p t path encoded)))
        s h

  write_new-Holds :
      (path : FilePath) (encoded : Text) (s : S) {p : FilePath}
      → Holds path [] s
      → (write_new fs path encoded s).0 ≡ ok p
      → (p ≡ path) × Holds path encoded (write_new fs path encoded s).1
  unfolding write_new
  write_new-Holds path encoded s h good = elim (Result-cases (fs.write_and_sync path encoded s).0) [
    | inl (u, e) ↦
        let same = (rw (e, write_new) at good) in
        rw (e, write_new) (sym (ok-injective same), laws.write_appends path encoded [] s h e)
    | inr (x, e) ↦ let bad = (rw (e, write_new) at good) in cc
  ]

  save_at-Holds :
      (path : FilePath) (encoded : Text) (s : S) {p : FilePath}
      → (save_at fs path encoded s).0 ≡ ok p
      → (p ≡ path) × Holds path encoded (save_at fs path encoded s).1
  unfolding save_at
  save_at-Holds path encoded s {p} good =
      let create =
        context (str "create " ++ path ++ str " without overwrite: ") (fs.create_new path 384) in
      let (u, made, step) = >>=-eq-ok create (λ _. write_new fs path encoded) s good in
      let empty =
        laws.create_new_empty path 384 s (context-eq-ok _ (fs.create_new path 384) s made) in
      subst (λ x. (p ≡ path) × Holds path encoded x.1) (sym step)
        (write_new-Holds path encoded (create s).1 {p = p} empty (sym (ap (λ x. x.0) step) ∙ good))

  module _ {F : Type 0} ⦃f : F32 F⦄ (root : FilePath) where
    save-Holds :
        (state : OriginalPowerState F) (s : S) {p : FilePath}
        → (save fs root state s).0 ≡ ok p
        → (t : Text) × (encode state ≡ ok t)
          × (path_for root state.node ≡ ok (state_path root state.node))
          × (p ≡ state_path root state.node)
          × Holds (state_path root state.node) t (save fs root state s).1
    unfolding save
    save-Holds state s {p} good =
        let (t, encoded, step) = >>=-eq-ok (lift (encode state)) _ s good in
        let good1 = sym (ap (λ x. x.0) step) ∙ good in
        let (_, _, step1) =
          >>=-eq-ok (prepare_root fs root)
            (λ _. lift (path_for root state.node) >>= λ path. save_at fs path t) s good1 in
        let good2 = sym (ap (λ x. x.0) step1) ∙ good1 in
        let s' = (prepare_root fs root s).1 in
        let (path, named, step2) =
          >>=-eq-ok (lift (path_for root state.node)) (λ path. save_at fs path t) s' good2 in
        let good3 = sym (ap (λ x. x.0) step2) ∙ good2 in
        let (_, at) = path_for-eq-ok root state.node named in
        let (same, held) = save_at-Holds path t s' {p = p} good3 in
        let final = step ∙ step1 ∙ step2 in
        (
          t,
          encoded,
          named ∙ ap (λ (x : FilePath). ok x) at,
          same ∙ at,
          subst (λ q. Holds q t (save fs root state s).1) at
              (subst (λ x. Holds path t x.1) (sym final) held),
        )

    -- What `save` has saved, `load` returns: the snapshot that was saved is read back as it was, from
    -- the path that `save` reports. Finite numbers must read back as they were printed, the file
    -- operations must behave as documented, and the time must fit a `u64`.
    pub load-save :
        IsPrinted F
        → (state : OriginalPowerState F) (s : S) {p : FilePath}
        → state.captured_at_unix_seconds ≤ max_u64
        → (save fs root state s).0 ≡ ok p
        → (p ≡ state_path root state.node)
          × (load fs root state.node (save fs root state s).1 ≡ ok state)
    unfolding load load_from
    load-save printed state s bound good =
        let (t, encoded, named, same, held) = save-Holds state s good in
        let back = decode-encode printed state bound encoded in
        let node = (text_eq_iff state.node state.node).1 refl in
        (same, rw (named, held, back, node) refl)
