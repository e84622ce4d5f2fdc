-- ===== src/State/OriginalPower.antt =====
-- archive/rust/src/state/original_power.rs, lines 14 to 122 and 469 to 497: the saved power settings,
-- and the text that they are kept in.
pub mod Validity
pub mod RoundTrip
use nordfir.Base.{
  ℕ, ◌≡◌, Bool, true, false, not, ◌||◌, Option, none, some, List, [], ◌∷◌, ◌++◌, Text, str, text_eq,
  length, Result, ok, err, ◌>>=◌, ◌>>◌, refuse, ok_or, context, ◌==◌, if◌then◌else◌,
}
use nordfir.Base.Time.{SystemTime, unix_epoch, duration_since, as_secs}
use nordfir.Format.{decimal, parse_unsigned, max_u8, max_u64, lines, split_once, is_token}
use nordfir.Float.{F32}
use nordfir.Core.{NodeId, get}
use nordfir.Energy.Capabilities.{PowerCapabilities}

unfoldable pub state_header : Text
state_header = str "NORDFIR_ORIGINAL_POWER_STATE_V1"

abbrev pub state_version : ℕ
state_version = 1

pub record OriginalPowerState (F : Type 0) : Type 0 where
  pub version : ℕ
  pub node : NodeId
  pub captured_at_unix_seconds : ℕ
  pub governor : Text
  pub scaling_min_mhz : F
  pub scaling_max_mhz : F

unfoldable pub validate_token : Text → Text → Result (Unit {0})
validate_token label t = refuse (not (is_token t)) (str "invalid " ++ label ++ str " value")

module _ {F : Type 0} ⦃f : F32 F⦄ where
  unfoldable pub validate : OriginalPowerState F → Result (Unit {0})
  validate s = do
    refuse (not (s.version == state_version))
        (str "unsupported state version: " ++ decimal s.version)
    validate_token (str "node") s.node
    validate_token (str "governor") s.governor
    refuse (not (f.is_finite s.scaling_min_mhz) || not (f.is_finite s.scaling_max_mhz))
        (str "CPU frequency values must be finite")
    refuse (f.le s.scaling_min_mhz (f.of_ℕ 0) || f.le s.scaling_max_mhz (f.of_ℕ 0))
        (str "CPU frequency values must be positive")
    refuse (f.lt s.scaling_max_mhz s.scaling_min_mhz)
        (str "minimum CPU frequency exceeds maximum CPU frequency")

  -- `state.validate()?; Ok(state)`
  unfoldable pub checked : OriginalPowerState F → Result (OriginalPowerState F)
  checked s = do validate s; ok s

  -- The struct that `capture` builds, and checks.
  unfoldable pub current_state :
      NodeId → PowerCapabilities F → SystemTime → Result (OriginalPowerState F)
  current_state node c at = do
    governor ← ok_or c.current_governor (str "cannot snapshot an unknown CPU governor")
    lo ← ok_or c.scaling_min_mhz (str "cannot snapshot an unknown minimum CPU frequency")
    hi ← ok_or c.scaling_max_mhz (str "cannot snapshot an unknown maximum CPU frequency")
    since ← ok_or (duration_since at unix_epoch) (str "snapshot timestamp predates the Unix epoch")
    ok (record {
      version = state_version;
      node = node;
      captured_at_unix_seconds = as_secs since;
      governor = governor;
      scaling_min_mhz = lo;
      scaling_max_mhz = hi;
    })

  unfoldable pub capture : NodeId → PowerCapabilities F → SystemTime → Result (OriginalPowerState F)
  capture node c at = do s ← current_state node c at; checked s

-- `{key}={value}\n` and what follows it
unfoldable pub entry : Text → Text → Text → Text
entry key value rest = (key ++ b'=' ∷ value) ++ 10 ∷ rest

module _ {F : Type 0} ⦃f : F32 F⦄ where
  unfoldable pub state_text : OriginalPowerState F → Text
  state_text s =
      state_header
      ++ 10
        ∷ entry (str "version") (decimal s.version) (
            entry (str "node") s.node (
              entry (str "captured_at_unix_seconds") (decimal s.captured_at_unix_seconds) (
                entry (str "governor") s.governor (
                  entry (str "scaling_min_mhz") (f.display s.scaling_min_mhz)
                    (entry (str "scaling_max_mhz") (f.display s.scaling_max_mhz) [])))))

  unfoldable pub encode : OriginalPowerState F → Result Text
  encode s = do validate s; ok (state_text s)

-- A `BTreeMap` of the fields, as the list of those inserted so far.
abbrev pub Fields : Type 0
Fields = List (Text × Text)

unfoldable pub insert_field : Option Text → Text → Text → Fields → Result Fields
insert_field (some _) key value fields = err (str "duplicate state field: " ++ key)
insert_field none key value fields = ok (fields ++ (key, value) ∷ [])

unfoldable pub read_line : Option (Text × Text) → Text → Fields → Result Fields
read_line none line fields = err (str "invalid state line: " ++ line)
read_line (some (key, value)) line fields = insert_field (get key fields) key value fields

unfoldable pub read_fields : List Text → Fields → Result Fields
read_fields [] fields = ok fields
read_fields (line ∷ more) fields = elim (read_line (split_once b'=' line) line fields) [
  | ok fields' ↦ read_fields more fields'
  | err e ↦ err e
]

unfoldable pub required_field : Fields → Text → Result Text
required_field fields name = ok_or (get name fields) (str "missing state field: " ++ name)

unfoldable pub parse_field : {A : Type 0} → (Text → Result A) → Fields → Text → Result A
parse_field parse fields name = do
  value ← required_field fields name
  context (str "invalid state field " ++ name ++ str ": ") (parse value)

unfoldable pub counted_fields : Fields → Result Fields
counted_fields fields =
    if length fields == 6 then ok fields else err (str "unexpected number of state fields")

module _ {F : Type 0} ⦃f : F32 F⦄ where
  -- The struct that `decode` builds, and checks.
  unfoldable pub saved_state : Fields → Result (OriginalPowerState F)
  saved_state fields = do
    version ← parse_field (parse_unsigned max_u8) fields (str "version")
    node ← required_field fields (str "node")
    captured ← parse_field (parse_unsigned max_u64) fields (str "captured_at_unix_seconds")
    governor ← required_field fields (str "governor")
    lo ← parse_field f.parse fields (str "scaling_min_mhz")
    hi ← parse_field f.parse fields (str "scaling_max_mhz")
    ok (record {
      version = version;
      node = node;
      captured_at_unix_seconds = captured;
      governor = governor;
      scaling_min_mhz = lo;
      scaling_max_mhz = hi;
    })

  unfoldable pub from_fields : Fields → Result (OriginalPowerState F)
  from_fields fields = do s ← saved_state fields; checked s

  unfoldable pub decode_fields : List Text → Result (OriginalPowerState F)
  decode_fields more = do fields ← read_fields more []; six ← counted_fields fields; from_fields six

  unfoldable pub decode_lines : List Text → Result (OriginalPowerState F)
  decode_lines [] = err (str "unsupported or missing original-power-state header")
  decode_lines (first ∷ more) =
      if text_eq first state_header
      then decode_fields more
      else err (str "unsupported or missing original-power-state header")

  unfoldable pub decode : Text → Result (OriginalPowerState F)
  decode content = decode_lines (lines content)
