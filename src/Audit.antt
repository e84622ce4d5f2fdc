-- ===== src/Audit.antt =====
-- archive/rust/src/audit/mod.rs: events, their text, receipts, and the sinks.
pub mod Escape
pub mod Receipts
pub mod Events
pub mod Fanout
pub mod LogChecks
pub mod Sinks
use nordfir.Base.{
  ℕ, zero, suc, ◌+◌, Bool, true, false, not, ◌&&◌, ◌||◌, Option, none, some, List, [], ◌∷◌, ◌++◌,
  Text, str, join_texts, is_empty, all, length, leb, ltb, ◌==◌, Result, ok, err, ◌>>=◌, ◌>>◌,
  refuse, ok_or, if◌then◌else◌,
}
use nordfir.Base.Io.{Io}
use nordfir.Base.Time.{SystemTime, unix_epoch, duration_since, as_secs}
use nordfir.Format.{decimal, strip_prefix}

pub data AuditEventKind : Type 0 where
  intent_received guard_evaluated authorization_requested authorization_granted
        authorization_denied :
      AuditEventKind
  preflight_completed action_executed action_failed recovery_state_retired policy_changed :
      AuditEventKind

pub record AuditEvent : Type 0 where
  pub at : SystemTime
  pub actor : Text
  pub kind : AuditEventKind
  pub message : Text

unfoldable pub event_kind : AuditEventKind → Text
event_kind AuditEventKind.intent_received = str "intent_received"
event_kind AuditEventKind.guard_evaluated = str "guard_evaluated"
event_kind AuditEventKind.authorization_requested = str "authorization_requested"
event_kind AuditEventKind.authorization_granted = str "authorization_granted"
event_kind AuditEventKind.authorization_denied = str "authorization_denied"
event_kind AuditEventKind.preflight_completed = str "preflight_completed"
event_kind AuditEventKind.action_executed = str "action_executed"
event_kind AuditEventKind.action_failed = str "action_failed"
event_kind AuditEventKind.recovery_state_retired = str "recovery_state_retired"
event_kind AuditEventKind.policy_changed = str "policy_changed"

-- `str::replace` of one character
unfoldable pub replace : ℕ → Text → Text → Text
replace c by [] = []
replace c by (d ∷ t) = let rest = replace c by t in if d == c then by ++ rest else d ∷ rest

unfoldable pub escape_field : Text → Text
escape_field value =
    let slashes = replace b'\\' (b'\\' ∷ b'\\' ∷ []) value in
    let tabs = replace 9 (b'\\' ∷ b't' ∷ []) slashes in
    let returns = replace 13 (b'\\' ∷ b'r' ∷ []) tabs in replace 10 (b'\\' ∷ b'n' ∷ []) returns

-- The line that `encode_event` formats, from its last field on, and so on from the others.
abbrev pub from_message : Text → Text
from_message message = str "message=" ++ (escape_field message ++ 10 ∷ [])

abbrev pub from_kind : AuditEventKind → Text → Text
from_kind kind message = str "kind=" ++ (event_kind kind ++ 9 ∷ from_message message)

abbrev pub from_actor : Text → AuditEventKind → Text → Text
from_actor actor kind message = str "actor=" ++ (escape_field actor ++ 9 ∷ from_kind kind message)

unfoldable pub event_line : ℕ → Text → AuditEventKind → Text → Text
event_line timestamp actor kind message =
    str "at=" ++ (decimal timestamp ++ 9 ∷ from_actor actor kind message)

unfoldable pub encode_event : AuditEvent → Result Text
encode_event event = do
  since ← ok_or (duration_since event.at unix_epoch) (str "audit timestamp predates the Unix epoch")
  ok (event_line (as_secs since) event.actor event.kind event.message)

-- `strip_suffix` of one character
unfoldable pub strip_suffix : ℕ → Text → Option Text
strip_suffix c [] = none
strip_suffix c (d ∷ []) = if d == c then some [] else none
strip_suffix c (d ∷ e ∷ t) = elim (strip_suffix c (e ∷ t)) [ none ↦ none | some u ↦ some (d ∷ u) ]

unfoldable pub is_receipt_char : ℕ → Bool
is_receipt_char c =
    leb b'0' c && leb c b'9'
    || leb b'A' c && leb c b'Z'
    || leb b'a' c && leb c b'z'
    || c == b'-'
    || c == b'_'
    || c == b'.'
    || c == b':'

-- `and_then(|line| line.strip_prefix("accepted\t"))`
unfoldable pub strip_accepted : Option Text → Option Text
strip_accepted none = none
strip_accepted (some line) = strip_prefix (str "accepted" ++ 9 ∷ []) line

-- The length in bytes of the text in UTF-8.
unfoldable pub byte_length : Text → ℕ
byte_length [] = 0
byte_length (c ∷ t) =
    let rest = byte_length t in
    if ltb c 128
    then 1 + rest
    else if ltb c 2048
    then 2 + rest
    else if ltb c 65536
    then 3 + rest
    else 4 + rest

-- A byte of a character that is not ASCII is no receipt character either, so the bytes can be tested
-- as characters.
unfoldable pub parse_receipt : Text → Result Text
parse_receipt response = do
  receipt ←
      ok_or (strip_accepted (strip_suffix 10 response))
        (str "audit collector returned an invalid receipt")
  refuse (is_empty receipt || ltb 256 (byte_length receipt))
      (str "audit receipt id must contain 1 to 256 bytes")
  refuse (not (all is_receipt_char receipt)) (str "audit receipt id contains invalid characters")
  ok receipt

-- `dyn AuditSink`, over a state `S` of all that the sinks write to.
abbrev pub AuditSink : Type 0 → Type 0
AuditSink S = AuditEvent → Io S (Unit {0})

-- `FanoutAuditSink::new`
unfoldable pub new_fanout : {S : Type 0} → List (AuditSink S) → Result (List (AuditSink S))
new_fanout sinks = do
  refuse (is_empty sinks) (str "audit fanout requires at least one sink")
  ok sinks

unfoldable pub sink_failure : ℕ → Result (Unit {0}) → List Text
sink_failure index (ok _) = []
sink_failure index (err e) = (str "sink " ++ decimal (index + 1) ++ str ": " ++ e) ∷ []

module _ {S : Type 0} (event : AuditEvent) where
  -- The loop of `record`, from the sink with this index: the failures, and the state.
  unfoldable pub record_all : List (AuditSink S) → ℕ → S → List Text × S
  record_all [] index s = ([], s)
  record_all (sink ∷ sinks) index s =
      let (r, s') = sink event s in
      let (failures, s'') = record_all sinks (index + 1) s' in
      (sink_failure index r ++ failures, s'')

-- What the fanout answers once every sink has been called.
unfoldable pub fanout_result : List Text → Result (Unit {0})
fanout_result [] = ok tt
fanout_result (f ∷ fs) = err (str "audit fanout failed: " ++ join_texts (str "; ") (f ∷ fs))

-- `FanoutAuditSink::record`
unfoldable pub record_fanout : {S : Type 0} → List (AuditSink S) → AuditSink S
record_fanout sinks event s =
    let (failures, s') = record_all event sinks 0 s in (fanout_result failures, s')
