-- ===== src/Audit/Sinks/Appended.antt =====
-- audit/mod.rs, `FileAuditSink::record`: what it leaves in the log and in the other files.
use mathlib.Core.Path.{subst}
use nordfir.Base.{
  ◌≡◌, sym, ap, ◌∙◌, ◌≢◌, ◌⊎◌, inl, inr, [], Text, str, ◌++◌, ok, Result-cases, >>=-eq-ok,
}
use nordfir.Base.Io.{continue, context, >>=-eq-ok as Io->>=-eq-ok, Keeps, Keeps->>=, context-eq-ok}
use nordfir.Format.{FilePath}
use nordfir.Files.{FileSystem, Lookup}
use nordfir.Files.Laws.{IsFileSystem}
use nordfir.State.Store.Saved.{Holds}
use nordfir.Audit.{AuditEvent, encode_event}
use nordfir.Audit.LogChecks.{prepare_line, validate_parent, check_log}
use nordfir.Audit.Sinks.{append_line, record_file}

module _ {S : Type 0} (fs : FileSystem S) (laws : IsFileSystem fs) (path : FilePath) where
  -- The text of the log; there is none yet where the file is missing.
  abbrev pub LogHolds : Text → S → Type 0
  LogHolds u s =
      Holds fs laws path u s
      ⊎ ((e : Text) × (fs.symlink_metadata path s ≡ Lookup.missing e) × (u ≡ []))

  append_line-Keeps :
      (p : FilePath) (t line : Text)
      → p ≢ path
      → Keeps (Holds fs laws p t) (append_line fs path line)
  unfolding append_line
  append_line-Keeps p t line d =
      Keeps->>= (Holds fs laws p t)
        (context (str "open audit log " ++ path ++ str ": ") (fs.open_append path 384)) _
        (λ s h. laws.open_append_existing p path 384 s t h)
        (λ _ s h. laws.append_other path p line s d ∙ h)

  open_append-LogHolds :
      (u : Text) (s : S)
      → (fs.open_append path 384 s).0 ≡ ok tt
      → LogHolds u s
      → Holds fs laws path u (fs.open_append path 384 s).1
  open_append-LogHolds u s opened (inl h) = laws.open_append_existing path path 384 s u h
  open_append-LogHolds u s opened (inr (e, missing, empty)) =
      laws.open_append_new path 384 s e missing opened ∙ ap (λ (x : Text). ok x) (sym empty)

  append_line-Holds :
      (u line : Text) (s : S)
      → (append_line fs path line s).0 ≡ ok tt
      → LogHolds u s
      → Holds fs laws path (u ++ line) (append_line fs path line s).1
  unfolding append_line
  append_line-Holds u line s h log =
      let open_log =
        context (str "open audit log " ++ path ++ str ": ") (fs.open_append path 384) in
      let add =
        context (str "append audit log " ++ path ++ str ": ") (fs.append_and_sync path line) in
      let (_, opened, step) = Io->>=-eq-ok open_log (λ _. add) s h in
      let held =
        open_append-LogHolds u s (context-eq-ok _ (fs.open_append path 384) s opened) log in
      subst (λ x. Holds fs laws path (u ++ line) x.1) (sym step)
        (laws.append_appends path line u (open_log s).1 held (
          context-eq-ok _ (fs.append_and_sync path line) (open_log s).1
            (sym (ap (λ x. x.0) step) ∙ h)))

  pub record_file-Keeps :
      (event : AuditEvent) (p : FilePath) (t : Text)
      → p ≢ path
      → Keeps (Holds fs laws p t) (record_file fs path event)
  unfolding record_file
  record_file-Keeps event p t d s h = elim (Result-cases (prepare_line fs path event s)) [
    | inl (line, e) ↦ rw (e, continue) (append_line-Keeps p t line d s h)
    | inr (x, e) ↦ rw (e, continue) h
  ]

  prepare_line-encode :
      (event : AuditEvent) (s : S) {line : Text}
      → prepare_line fs path event s ≡ ok line
      → encode_event event ≡ ok line
  unfolding prepare_line
  prepare_line-encode event s h =
      let (directory, _, rest) = >>=-eq-ok (validate_parent fs path s) _ h in
      let (_, _, encoded) =
        >>=-eq-ok (check_log fs path directory (fs.symlink_metadata path s)) _ rest in
      encoded

  -- What `record` has logged is the event's line, behind all that the log held before.
  pub record_file_appends :
      (event : AuditEvent) (u : Text) (s : S)
      → LogHolds u s
      → (record_file fs path event s).0 ≡ ok tt
      → (line : Text) × (encode_event event ≡ ok line)
        × Holds fs laws path (u ++ line) (record_file fs path event s).1
  unfolding record_file
  record_file_appends event u s log h = elim (Result-cases (prepare_line fs path event s)) [
    | inl (line, e) ↦ (
      line,
      prepare_line-encode event s e,
      rw (e, continue) (append_line-Holds u line s (rw (e, continue) at h) log),
    )
    | inr (x, e) ↦ let bad = rw (e, continue) at h in cc
  ]
