-- ===== src/Deployment/Confinement.antt =====
-- deployment/mod.rs: when a process counts as confined.
use nordfir.Base.{
  ℕ, ◌≤◌, ◌≡◌, refl, ◌≢◌, ◌↔◌, inl, inr, Bool, true, false, not, ◌||◌, Text, str, is_ok, ◌==◌,
  ==_iff, arith, Bool-cases,
}
use nordfir.Format.{max_u32, max_u64}
use nordfir.Deployment.{
  LinuxProcessSecurity, UserIds, zero_capabilities, check_identity, check_escalation, checks,
  is_confined,
}

zero_capabilities_iff : (n : ℕ) (name : Text) → (is_ok (zero_capabilities n name) ≡ true) ↔ (n ≡ 0)
unfolding zero_capabilities
zero_capabilities_iff n name = elim (Bool-cases (n == 0)) [
  | inl e ↦ rw (e, zero_capabilities) (λ _. (==_iff n 0).0 e, λ _. refl)
  | inr e ↦ rw (e, zero_capabilities) (λ h. cc, λ h. let same = (==_iff n 0).1 h in cc)
]

check_escalation_iff : (b : Bool) → (is_ok (check_escalation b) ≡ true) ↔ (b ≡ true)
unfolding check_escalation
check_escalation_iff true = (λ _. refl, λ _. refl)
check_escalation_iff false = (λ h. cc, λ h. cc)

-- One user, who is not root.
abbrev pub IsOneUser : LinuxProcessSecurity → Type 0
IsOneUser s =
    (s.effective_uid ≢ 0)
    × (s.real_uid ≡ s.effective_uid)
    × (s.saved_set_uid ≡ s.effective_uid)
    × (s.filesystem_uid ≡ s.effective_uid)

abbrev differ : LinuxProcessSecurity → Bool
differ s =
    not (s.real_uid == s.effective_uid)
    || not (s.saved_set_uid == s.effective_uid)
    || not (s.filesystem_uid == s.effective_uid)

check_identity_iff : (s : LinuxProcessSecurity) → (is_ok (check_identity s) ≡ true) ↔ IsOneUser s
unfolding check_identity
check_identity_iff s =
    let root = ==_iff s.effective_uid 0 in
    let real = ==_iff s.real_uid s.effective_uid in
    let saved = ==_iff s.saved_set_uid s.effective_uid in
    let files = ==_iff s.filesystem_uid s.effective_uid in
    elim (Bool-cases (s.effective_uid == 0)) [
      | inl e ↦ rw (e, check_identity) (λ h. cc, λ (apart, _, _, _). absurd (apart (root.0 e)))
      | inr e ↦ elim (Bool-cases (differ s)) [
        | inl d ↦
            rw (e, d, check_identity)
              (
                λ h. cc,
                λ (_, a, b, c).
                    let x = real.1 a in let y = saved.1 b in let z = files.1 c in ground arith,
              )
        | inr d ↦
            rw (e, d, check_identity)
              (
                λ _. (
                  (λ z. let x = root.1 z in cc),
                  real.0 (ground arith),
                  saved.0 (ground arith),
                  files.0 (ground arith),
                ),
                λ _. refl,
              )
      ]
    ]

-- A process is confined exactly when its four user ids are one that is not root's, it cannot gain
-- privileges, and its effective and bounding capability sets are empty.
pub is_confined_iff :
    (s : LinuxProcessSecurity)
    → (is_confined s ≡ true) ↔ (
        IsOneUser s
        × (s.no_new_privileges ≡ true)
        × (s.effective_capabilities ≡ 0)
        × (s.bounding_capabilities ≡ 0))
unfolding is_confined checks
is_confined_iff s =
    let (a, a') = check_identity_iff s in
    let (b, b') = check_escalation_iff s.no_new_privileges in
    let (c, c') = zero_capabilities_iff s.effective_capabilities (str "CapEff") in
    let (d, d') = zero_capabilities_iff s.bounding_capabilities (str "CapBnd") in
    (
      λ h. (a (ground arith), b (ground arith), c (ground arith), d (ground arith)),
      λ (w, x, y, z).
          let one = a' w in let two = b' x in let three = c' y in let four = d' z in ground arith,
    )

-- The numbers that fit their Rust types.
abbrev pub IsSized : LinuxProcessSecurity → Type 0
IsSized s =
    ((s.real_uid ≤ max_u32)
      × (s.effective_uid ≤ max_u32)
      × (s.saved_set_uid ≤ max_u32)
      × (s.filesystem_uid ≤ max_u32))
    × (s.effective_capabilities ≤ max_u64)
    × (s.bounding_capabilities ≤ max_u64)

-- The user ids that fit a `u32`.
abbrev FitIds : UserIds → Type 0
FitIds u =
    (u.real ≤ max_u32)
    × (u.effective ≤ max_u32)
    × (u.saved_set ≤ max_u32)
    × (u.filesystem ≤ max_u32)
