-- ===== src/Cli/ApplyLocal.antt =====
-- main.rs, apply-rest-local from the command line to its end.
use mathlib.Core.Option.{some-injective}
use mathlib.Core.Path.{subst}
use nordfir.Base.{
  ◌*◌, ◌≡◌, sym, ap, ◌∙◌, ◌≢◌, ◌⊎◌, inl, inr, some, All, All-map, Text, str, ◌++◌, ok, ok-injective,
}
use nordfir.Base.Time.{from_secs}
use nordfir.Float.{F32}
use nordfir.Format.{FilePath}
use nordfir.Files.Laws.{IsFileSystem}
use nordfir.Energy.Capabilities.{rest_default}
use nordfir.Energy.RestPlan.{RestChangePlan, RestPlanStatus, default_planner, plan}
use nordfir.State.OriginalPower.{OriginalPowerState, decode}
use nordfir.State.Store.{state_path}
use nordfir.State.Store.Fresh.{IsRecent}
use nordfir.State.Store.Saved.{Holds}
use nordfir.State.PowerProbe.{probe}
use nordfir.Drivers.LinuxRest.Apply.Outcomes.{IsReached}
use nordfir.Audit.{AuditEventKind, AuditSink}
use nordfir.Audit.Sinks.Appended.{LogHolds}
use nordfir.Audit.Sinks.Sent.{HasOwnSockets}
use nordfir.Host.{Host, IsHost, argument}
use nordfir.Cli.{audit_log, kernel, local_node, sysfs_root}
use nordfir.Cli.Audited.{IsLineOf, IsLogging, audit_sink-IsLogging}
use nordfir.Cli.Paths.{audit_log-ne-setting, audit_log-ne-state_path}
use nordfir.Cli.Intent.{audited_success}
use nordfir.Cli.Permission.{when_permitted-cases}
use nordfir.Cli.Writing.{Run, audited, apply_operation, apply_rest_local}
use nordfir.Cli.Applied.{IsReached-kept, IsCarriedOut, apply_operation-ok}

module _ {S : Type 0} (F : Type 0) ⦃f : F32 F⦄ (host : Host S) (laws : IsFileSystem host.files)
    (own : HasOwnSockets host.files host.sockets) (quiet : IsHost host) where
  -- Every file that exists keeps its text, the log excepted.
  abbrev pub AllButLogKept : FilePath → S → S → Type 0
  AllButLogKept directory s s' =
      (q : FilePath) (t : Text)
      → q ≢ audit_log directory
      → Holds host.files laws q t s
      → Holds host.files laws q t s'

  -- The plan was carried out, or it asks for no change and nothing but the log was written.
  abbrev pub IsEffective : FilePath → RestChangePlan F → S → S → Type 0
  IsEffective directory p s s' =
      ((p.status ≡ RestPlanStatus.ready)
        × All (λ c. IsReached (kernel host.files) sysfs_root c s') p.changes)
      ⊎ ((p.status ≡ RestPlanStatus.no_changes) × AllButLogKept directory s s')

  -- The intent is in the log at the start of the operation, and nothing else has changed. The clock is
  -- read there, and the snapshot is at most a quarter of an hour old; the plan for REST for what is then
  -- seen was carried out, and the outcome is in the log.
  abbrev pub IsEconomized : FilePath → Text → Text → S → S → Type 0
  IsEconomized directory u c s s' =
      (o : OriginalPowerState F) × (p : RestChangePlan F) × (start : S) × (first : Text)
      × (last : Text) × (decode c ≡ ok o)
      × AllButLogKept directory s start
      × Holds host.files laws (audit_log directory) (u ++ first) start
      × IsRecent host.files directory o (host.now start).0 (from_secs (15 * 60))
      × (plan default_planner (probe host.files sysfs_root (host.now start).1) rest_default
          ≡ some p)
      × IsEffective directory p s s'
      × IsLineOf AuditEventKind.intent_received (str "REST apply requested") first
      × IsLineOf AuditEventKind.action_executed (str "REST apply" ++ str " completed") last
      × Holds host.files laws (audit_log directory) (u ++ first ++ last) s'

  abbrev command : FilePath → AuditSink S → Run S (Unit {0})
  command directory audit =
      audited host (str "REST apply requested") (str "REST apply") audit
        (apply_operation F host directory)

  IsCarriedOut-IsEffective :
      (directory : FilePath) (p : RestChangePlan F) (s seen end s' : S)
      → AllButLogKept directory s seen
      → AllButLogKept directory end s'
      → IsCarriedOut host.files laws p seen end
      → IsEffective directory p s s'
  IsCarriedOut-IsEffective directory p s seen end s' kept others (inl (ready, reached)) = inl (
    ready,
    All-map p.changes
        (IsReached-kept host.files laws end s' (λ name t setting x.
          others _ t (λ e. audit_log-ne-setting directory sysfs_root name setting (sym e)) x))
        reached,
  )
  IsCarriedOut-IsEffective directory p s seen end s' kept others (inr (idle, same)) =
      inr (idle, λ q t d held. others q t d (same q t (kept q t d held)))

  audited-IsEconomized :
      (directory : FilePath) (audit : AuditSink S)
      → IsLogging host.files laws (audit_log directory) audit
      → (u c : Text) (s : S) → LogHolds host.files laws (audit_log directory) u s
      → Holds host.files laws (state_path directory local_node) c s
      → (command directory audit s).0 ≡ some (ok tt)
      → IsEconomized directory u c s (command directory audit s).1
  audited-IsEconomized directory audit logging u c s log held h =
      let (first, start, logged, begun, kept, good, others, close) =
        audited_success host laws quiet (audit_log directory) audit logging
          (str "REST apply requested") (str "REST apply") (apply_operation F host directory) u s log
          h in
      let (o, c', p, read, decoded, recent, made, carried, added) =
        apply_operation-ok F host laws quiet directory (u ++ first) start begun good in
      let (last, completed, ended) = close (u ++ first) added in
      let same = ok-injective (
        sym read
        ∙ kept (state_path directory local_node) c
            (λ e. audit_log-ne-state_path directory local_node (sym e)) held) in
      let kept_seen =
        λ (q : FilePath) (t : Text) (d : q ≢ audit_log directory) (x : Holds host.files laws q t s).
          quiet.now_leaves q start ∙ kept q t d x in
      (
        o,
        p,
        start,
        first,
        last,
        subst (λ x. decode x ≡ ok o) same decoded,
        kept,
        begun,
        recent,
        made,
        IsCarriedOut-IsEffective directory p s (host.now start).1
            (apply_operation F host directory start).1 (command directory audit s).1 kept_seen
            others carried,
        logged,
        completed,
        ended,
      )

  -- When `apply-rest-local` succeeds, its operation started in a state in which the log was what it was
  -- and the line of the request, and all other files were as at first. The snapshot of the state
  -- directory was captured at most a quarter of an hour before the clock was read in that state and not
  -- after it; the plan is the default one for the interfaces as they were seen there, and it was either
  -- ready, and each file that it changes reads as its target in the state that is left, or has no
  -- changes, and no file but the log was changed. At the end the audit log is what it was and two lines
  -- more, the request and the completion. The files, the sockets, the clock and the console must behave
  -- as documented.
  pub apply_local_success :
      (directory : FilePath) (u c : Text) (s : S)
      → argument host 2 ≡ some directory
      → LogHolds host.files laws (audit_log directory) u s
      → Holds host.files laws (state_path directory local_node) c s
      → (apply_rest_local F host s).0 ≡ some (ok tt)
      → IsEconomized directory u c s (apply_rest_local F host s).1
  unfolding apply_rest_local
  apply_local_success directory u c s given log held h =
      elim (when_permitted-cases host (str "apply-rest-local") command s) [
        | inl (e, refused) ↦ let apart = sym (ap (λ x. x.0) refused) ∙ h in cc
        | inr (directory', audit, (given', _, made), step) ↦
            let same = some-injective _ _ (sym given ∙ given') in
            subst (λ x. IsEconomized directory u c s x.1) (sym step)
              (subst (λ d. IsEconomized d u c s (command directory' audit s).1) (sym same)
                (audited-IsEconomized directory' audit
                  (audit_sink-IsLogging host laws own directory' made) u c s
                  (subst (λ d. LogHolds host.files laws (audit_log d) u s) same log)
                  (subst (λ d. Holds host.files laws (state_path d local_node) c s) same held)
                  (sym (ap (λ x. x.0) step) ∙ h)))
      ]
