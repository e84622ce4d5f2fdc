-- ===== src/Deployment.antt =====
-- archive/rust/src/deployment/mod.rs: whether the process runs without privileges.
pub mod Confinement
use nordfir.Base.{
  ℕ, zero, suc, ◌/◌, ◌%◌, ◌+◌, ◌-◌, ◌≡◌, Bool, true, false, not, ◌||◌, Option, none, some, List, [],
  ◌∷◌, ◌++◌, Text, str, text_eq, all, Result, ok, err, ◌>>=◌, ◌>>◌, refuse, ok_or, context, is_ok,
  ◌==◌, ltb, if◌then◌else◌,
}
use nordfir.Format.{
  decimal, parse_unsigned, parse_radix, max_u32, max_u64, lines, trim, strip_prefix,
  split_whitespace,
}

pub record LinuxProcessSecurity : Type 0 where
  pub real_uid : ℕ
  pub effective_uid : ℕ
  pub saved_set_uid : ℕ
  pub filesystem_uid : ℕ
  pub no_new_privileges : Bool
  pub effective_capabilities : ℕ
  pub bounding_capabilities : ℕ

pub record SecurityCheck : Type 0 where
  pub name : Text
  pub result : Result Text

-- `find_map(|line| line.strip_prefix(name))`
unfoldable pub find_prefix : Text → List Text → Option Text
find_prefix name [] = none
find_prefix name (line ∷ more) = elim (strip_prefix name line) [
  | some rest ↦ some rest
  | none ↦ find_prefix name more
]

unfoldable pub trim_found : Option Text → Option Text
trim_found none = none
trim_found (some value) = some (trim value)

unfoldable pub field : Text → Text → Result Text
field status name =
    ok_or (trim_found (find_prefix name (lines status))) (str "process status is missing " ++ name)

unfoldable pub parse_decimal : Option Text → Text → Result ℕ
parse_decimal value name = do
  text ← ok_or value (str "process status is missing " ++ name)
  context (str "parse " ++ name ++ str ": ") (parse_unsigned max_u32 text)

unfoldable pub parse_hex : Text → Text → Result ℕ
parse_hex value name = context (str "parse " ++ name ++ str ": ") (parse_radix 16 max_u64 value)

-- `Iterator::next`
abbrev pub first : List Text → Option Text
first [] = none
first (w ∷ ws) = some w

abbrev pub rest : List Text → List Text
rest [] = []
rest (w ∷ ws) = ws

unfoldable pub parse_no_new_privileges : Text → Result Bool
parse_no_new_privileges value =
    if text_eq value (str "0")
    then ok false
    else if text_eq value (str "1")
    then ok true
    else err (str "invalid NoNewPrivs value '" ++ value ++ str "'")

abbrev none_left : List Text → Bool
none_left [] = true
none_left (w ∷ ws) = false

pub record UserIds : Type 0 where
  pub real : ℕ
  pub effective : ℕ
  pub saved_set : ℕ
  pub filesystem : ℕ

-- The four numbers of the field `Uid:`.
unfoldable pub parse_uids : List Text → Result UserIds
parse_uids uid = do
  real ← parse_decimal (first uid) (str "real user id")
  effective ← parse_decimal (first (rest uid)) (str "effective user id")
  saved_set ← parse_decimal (first (rest (rest uid))) (str "saved-set user id")
  filesystem ← parse_decimal (first (rest (rest (rest uid)))) (str "filesystem user id")
  refuse (not (none_left (rest (rest (rest (rest uid))))))
      (str "process user id field has unexpected values")
  ok (record { real = real; effective = effective; saved_set = saved_set; filesystem = filesystem })

-- The fields after it.
unfoldable pub parse_capabilities : Text → UserIds → Bool → Result LinuxProcessSecurity
parse_capabilities status uids no_new_privileges = do
  effective ← field status (str "CapEff:")
  effective_capabilities ← parse_hex effective (str "CapEff")
  bounding ← field status (str "CapBnd:")
  bounding_capabilities ← parse_hex bounding (str "CapBnd")
  ok (record {
    real_uid = uids.real;
    effective_uid = uids.effective;
    saved_set_uid = uids.saved_set;
    filesystem_uid = uids.filesystem;
    no_new_privileges = no_new_privileges;
    effective_capabilities = effective_capabilities;
    bounding_capabilities = bounding_capabilities;
  })

unfoldable pub parse_flags : Text → UserIds → Result LinuxProcessSecurity
parse_flags status uids = do
  flag ← field status (str "NoNewPrivs:")
  no_new_privileges ← parse_no_new_privileges flag
  parse_capabilities status uids no_new_privileges

-- `LinuxProcessSecurity::parse`
unfoldable pub parse : Text → Result LinuxProcessSecurity
parse status = do
  uid ← field status (str "Uid:")
  uids ← parse_uids (split_whitespace uid)
  parse_flags status uids

abbrev hex_digit : ℕ → ℕ
hex_digit d = if ltb d 10 then b'0' + d else b'a' + (d - 10)

-- `{value:016x}` of a 64-bit number
unfoldable pub hex_digits : ℕ → ℕ → Text → Text
hex_digits zero n out = out
hex_digits (suc places) n out = hex_digits places (n / 16) (hex_digit (n % 16) ∷ out)

unfoldable pub zero_capabilities : ℕ → Text → Result Text
zero_capabilities value name =
    if value == 0
    then ok (name ++ str " is empty")
    else err (name ++ str " contains 0x" ++ hex_digits 16 value [])

unfoldable pub check_identity : LinuxProcessSecurity → Result Text
check_identity s =
    if s.effective_uid == 0
    then err (str "effective user is root")
    else if not (s.real_uid == s.effective_uid)
        || not (s.saved_set_uid == s.effective_uid)
        || not (s.filesystem_uid == s.effective_uid)
    then err (
        str "user ids differ (real="
        ++ decimal s.real_uid
        ++ str ", effective="
        ++ decimal s.effective_uid
        ++ str ", saved="
        ++ decimal s.saved_set_uid
        ++ str ", filesystem="
        ++ decimal s.filesystem_uid
        ++ str ")")
    else ok (str "running as non-root uid " ++ decimal s.effective_uid)

unfoldable pub check_escalation : Bool → Result Text
check_escalation true = ok (str "NoNewPrivs is enabled")
check_escalation false = err (str "NoNewPrivs is disabled")

unfoldable pub checks : LinuxProcessSecurity → List SecurityCheck
checks s =
    record { name = str "Non-root identity"; result = check_identity s }
    ∷ record { name = str "Privilege escalation"; result = check_escalation s.no_new_privileges }
    ∷ record {
      name = str "Effective capabilities";
      result = zero_capabilities s.effective_capabilities (str "CapEff");
    }
    ∷ record {
      name = str "Capability bounding set";
      result = zero_capabilities s.bounding_capabilities (str "CapBnd");
    }
    ∷ []

unfoldable pub is_confined : LinuxProcessSecurity → Bool
is_confined s = all (λ check. is_ok check.result) (checks s)
