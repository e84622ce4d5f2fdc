-- ===== src/Audit/Events.antt =====
-- audit/mod.rs, `encode_event`: a line of the log determines its event.
use mathlib.Core.Path.{subst}
use mathlib.Core.Option.{some-injective}
use nordfir.Base.{
  ℕ, ◌+◌, ◌≡◌, refl, sym, ap, ◌∙◌, inl, inr, true, not, Option, none, some, [], ◌∷◌, ◌++◌,
  append_cancel_left, Text, str, text_eq, Lacks, Lacks-of_all, all, ◌==◌, Option-cases, ok,
  ok-injective, arith, if◌then◌else◌,
}
use nordfir.Base.Time.{Duration, duration_since, unix_epoch, as_secs}
use nordfir.Format.{is_digit, decimal, parse_unsigned}
use nordfir.Format.Decimal.RoundTrip.{decimal-Lacks, parse_unsigned-decimal}
use nordfir.Audit.{
  AuditEventKind, AuditEvent, event_kind, escape_field, event_line, from_message, from_kind,
  from_actor, encode_event,
}
use nordfir.Audit.Escape.{tab, newline, unescape, unescape-escape_field}

-- The text in front of the first `c` is determined.
split_at :
    (c : ℕ) (a b : Text) {s t : Text}
    → Lacks c a
    → Lacks c b
    → a ++ c ∷ s ≡ b ++ c ∷ t
    → (a ≡ b) × (s ≡ t)
split_at c [] [] _ _ h = (refl, cc)
split_at c [] (d ∷ b) _ (k, _) h = absurd (k cc)
split_at c (d ∷ a) [] (k, _) _ h = absurd (k cc)
split_at c (d ∷ a) (e ∷ b) {s} {t} (_, k) (_, l) h =
    let (same, rest) = split_at c a b {s = s} {t = t} k l cc in let first : d ≡ e = cc in (cc, rest)

escape_field-injective : (s t : Text) → escape_field s ≡ escape_field t → s ≡ t
escape_field-injective s t h =
    sym (unescape-escape_field s).1 ∙ ap unescape h ∙ (unescape-escape_field t).1

decimal-injective : (m n : ℕ) → decimal m ≡ decimal n → m ≡ n
decimal-injective m n h = ok-injective (
    sym (parse_unsigned-decimal (m + n) m (omega arith))
    ∙ ap (parse_unsigned (m + n)) h
    ∙ parse_unsigned-decimal (m + n) n (omega arith))

-- The kind that has a name.
abbrev kind_of : Text → Option AuditEventKind
kind_of t =
    if text_eq t (str "intent_received")
    then some AuditEventKind.intent_received
    else if text_eq t (str "guard_evaluated")
    then some AuditEventKind.guard_evaluated
    else if text_eq t (str "authorization_requested")
    then some AuditEventKind.authorization_requested
    else if text_eq t (str "authorization_granted")
    then some AuditEventKind.authorization_granted
    else if text_eq t (str "authorization_denied")
    then some AuditEventKind.authorization_denied
    else if text_eq t (str "preflight_completed")
    then some AuditEventKind.preflight_completed
    else if text_eq t (str "action_executed")
    then some AuditEventKind.action_executed
    else if text_eq t (str "action_failed")
    then some AuditEventKind.action_failed
    else if text_eq t (str "recovery_state_retired")
    then some AuditEventKind.recovery_state_retired
    else if text_eq t (str "policy_changed")
    then some AuditEventKind.policy_changed
    else none

kind_of-event_kind : (k : AuditEventKind) → kind_of (event_kind k) ≡ some k
unfolding event_kind str text_eq
kind_of-event_kind AuditEventKind.intent_received = refl
kind_of-event_kind AuditEventKind.guard_evaluated = refl
kind_of-event_kind AuditEventKind.authorization_requested = refl
kind_of-event_kind AuditEventKind.authorization_granted = refl
kind_of-event_kind AuditEventKind.authorization_denied = refl
kind_of-event_kind AuditEventKind.preflight_completed = refl
kind_of-event_kind AuditEventKind.action_executed = refl
kind_of-event_kind AuditEventKind.action_failed = refl
kind_of-event_kind AuditEventKind.recovery_state_retired = refl
kind_of-event_kind AuditEventKind.policy_changed = refl

event_kind-injective : (j k : AuditEventKind) → event_kind j ≡ event_kind k → j ≡ k
event_kind-injective j k h =
    some-injective _ _ (sym (kind_of-event_kind j) ∙ ap kind_of h ∙ kind_of-event_kind k)

event_kind-Lacks : (k : AuditEventKind) → Lacks tab (event_kind k)
unfolding event_kind str
event_kind-Lacks k = Lacks-of_all tab (event_kind k) (no_tab k)
  where
    no_tab : (k : AuditEventKind) → all (λ d. not (d == tab)) (event_kind k) ≡ true
    no_tab AuditEventKind.intent_received = refl
    no_tab AuditEventKind.guard_evaluated = refl
    no_tab AuditEventKind.authorization_requested = refl
    no_tab AuditEventKind.authorization_granted = refl
    no_tab AuditEventKind.authorization_denied = refl
    no_tab AuditEventKind.preflight_completed = refl
    no_tab AuditEventKind.action_executed = refl
    no_tab AuditEventKind.action_failed = refl
    no_tab AuditEventKind.recovery_state_retired = refl
    no_tab AuditEventKind.policy_changed = refl

decimal-no_tab : (n : ℕ) → Lacks tab (decimal n)
unfolding is_digit
decimal-no_tab n = decimal-Lacks tab n refl

event_line-injective :
    (m n : ℕ) (a b : Text) (j k : AuditEventKind) (u v : Text)
    → event_line m a j u ≡ event_line n b k v
    → (m ≡ n) × (a ≡ b) × (j ≡ k) × (u ≡ v)
unfolding event_line
event_line-injective m n a b j k u v h =
    let (times, h1) =
      split_at tab (decimal m) (decimal n) {s = from_actor a j u} {t = from_actor b k v}
        (decimal-no_tab m) (decimal-no_tab n) (append_cancel_left (str "at=") h) in
    let (actors, h2) =
      split_at tab (escape_field a) (escape_field b) {s = from_kind j u} {t = from_kind k v}
        (unescape-escape_field a).0.0 (unescape-escape_field b).0.0
        (append_cancel_left (str "actor=") h1) in
    let (kinds, h3) =
      split_at tab (event_kind j) (event_kind k) {s = from_message u} {t = from_message v}
        (event_kind-Lacks j) (event_kind-Lacks k) (append_cancel_left (str "kind=") h2) in
    let (messages, _) =
      split_at newline (escape_field u) (escape_field v) {s = []} {t = []}
        (unescape-escape_field u).0.1 (unescape-escape_field v).0.1
        (append_cancel_left (str "message=") h3) in
    (
      decimal-injective m n times,
      escape_field-injective a b actors,
      event_kind-injective j k kinds,
      escape_field-injective u v messages,
    )

-- The second in which an event happened.
abbrev pub HappenedAt : AuditEvent → ℕ → Type 0
HappenedAt e n = (d : Duration) × (duration_since e.at unix_epoch ≡ some d) × (as_secs d ≡ n)

encode_event-eq-ok :
    (e : AuditEvent) {t : Text}
    → encode_event e ≡ ok t
    → (n : ℕ) × HappenedAt e n × (event_line n e.actor e.kind e.message ≡ t)
unfolding encode_event
encode_event-eq-ok e h = elim (Option-cases (duration_since e.at unix_epoch)) [
  | inl k ↦ let bad = (rw k at h) in cc
  | inr (d, k) ↦ (as_secs d, (d, k, refl), ok-injective (rw k at h))
]

-- The line that an event is logged as determines its actor, its kind, its message and the second in
-- which it happened: no actor or message can imitate another field or another line.
pub encode_event-injective :
    (d e : AuditEvent) {t : Text}
    → encode_event d ≡ ok t
    → encode_event e ≡ ok t
    → (d.actor ≡ e.actor)
      × (d.kind ≡ e.kind)
      × (d.message ≡ e.message)
      × ((n : ℕ) × HappenedAt d n × HappenedAt e n)
encode_event-injective d e h k =
    let (m, at_m, left) = encode_event-eq-ok d h in
    let (n, at_n, right) = encode_event-eq-ok e k in
    let (times, actors, kinds, messages) =
      event_line-injective m n d.actor e.actor d.kind e.kind d.message e.message
        (left ∙ sym right) in
    (actors, kinds, messages, (n, subst (HappenedAt d) times at_m, at_n))
