-- ===== src/State/Store/Fresh.antt =====
-- original_power.rs, `load_fresh_for_write`: what is loaded for a write.
use nordfir.Base.{
  ◌-◌, ◌≤◌, ◌≡◌, sym, ap, true, false, not, ◌||◌, Option, none, some, Text, str, text_eq,
  text_eq_iff, Result, ok, err, ok-injective, ◌>>◌, >>=-eq-ok, refuse, refuse-eq-ok,
  refuse-not-eq-ok, ok_or, context, ltb, ◌==◌, ==_iff, arith,
}
use mathlib.Core.Path.{subst}
use nordfir.Base.Time.{SystemTime, Duration, duration_since, unix_epoch, as_secs}
use nordfir.Format.{FilePath}
use nordfir.Float.{F32}
use nordfir.Core.{NodeId}
use nordfir.Files.{
  FileSystem, Metadata, Lookup, metadata_of, grants_others, effective_uid,
  validate_secure_directory,
}
use nordfir.State.OriginalPower.{OriginalPowerState, decode, validate_token}
use nordfir.State.OriginalPower.Validity.{IsToken, IsValid, decode-IsValid, is_token_iff}
use nordfir.State.Store.{
  state_path, path_for, validate_secure_metadata, load_from, load, load_for_write, check_age,
  load_fresh_for_write,
}

pub ok_or-eq-ok {ℓ} : {A : Type ℓ} (o : Option A) (e : Text) {a : A} → ok_or o e ≡ ok a → o ≡ some a
ok_or-eq-ok none e h = cc
ok_or-eq-ok (some b) e h = ap (λ x. some x) (ok-injective h)

pub context-eq-ok {ℓ} :
    {A : Type ℓ} (prefix : Text) (r : Result A) {a : A} → context prefix r ≡ ok a → r ≡ ok a
context-eq-ok prefix (ok a) h = h
context-eq-ok prefix (err e) h = cc

metadata_of-eq-ok : (l : Lookup) {m : Metadata} → metadata_of l ≡ ok m → l ≡ Lookup.found m
unfolding metadata_of
metadata_of-eq-ok (Lookup.found m) h = ap (λ x. Lookup.found x) (ok-injective h)
metadata_of-eq-ok (Lookup.missing e) h = cc
metadata_of-eq-ok (Lookup.failed e) h = cc

pub path_for-eq-ok :
    (root : FilePath) (node : NodeId) {p : FilePath}
    → path_for root node ≡ ok p
    → IsToken node × (p ≡ state_path root node)
unfolding path_for validate_token
path_for-eq-ok root node h =
    let (_, good, same) =
      >>=-eq-ok (validate_token (str "node") node) (λ _. ok (state_path root node)) h in
    ((is_token_iff node).0 (refuse-not-eq-ok _ _ good), sym (ok-injective same))

module _ {S : Type 0} (fs : FileSystem S) (root : FilePath) where
  -- A regular file, closed to others, of the owner of the directory, which is closed to others too.
  abbrev pub IsSecure : FilePath → S → Type 0
  IsSecure path s =
      (file : Metadata) × (directory : Metadata) × (fs.symlink_metadata path s ≡ Lookup.found file)
      × (fs.symlink_metadata root s ≡ Lookup.found directory)
      × (file.is_file ≡ true)
      × (file.is_symlink ≡ false)
      × (grants_others file.mode ≡ false)
      × (grants_others directory.mode ≡ false)
      × (file.uid ≡ directory.uid)

  validate_secure_directory-eq-ok :
      (path : FilePath) (s : S) {m : Metadata}
      → validate_secure_directory fs path s ≡ ok m
      → (fs.symlink_metadata path s ≡ Lookup.found m) × (grants_others m.mode ≡ false)
  unfolding validate_secure_directory
  validate_secure_directory-eq-ok path s h =
      let (directory, read, h1) =
        >>=-eq-ok (context _ (metadata_of (fs.symlink_metadata path s))) _ h in
      let (_, _, h2) = >>=-eq-ok (refuse (not directory.is_dir || directory.is_symlink) _) _ h1 in
      let (_, closed, h3) = >>=-eq-ok (refuse (grants_others directory.mode) _) _ h2 in
      let (uid, _, h4) = >>=-eq-ok (effective_uid fs s) _ h3 in
      let (_, _, last) = >>=-eq-ok (refuse (not (directory.uid == uid)) _) (λ _. ok directory) h4 in
      subst (λ x. (fs.symlink_metadata path s ≡ Lookup.found x) × (grants_others x.mode ≡ false))
        (ok-injective last) (metadata_of-eq-ok _ (context-eq-ok _ _ read), refuse-eq-ok _ _ closed)

  validate_secure_metadata-IsSecure :
      (path : FilePath) (s : S) → validate_secure_metadata fs root path s ≡ ok tt → IsSecure path s
  unfolding validate_secure_metadata
  validate_secure_metadata-IsSecure path s h =
      let (directory, around, h1) = >>=-eq-ok (validate_secure_directory fs root s) _ h in
      let (file, read, h2) =
        >>=-eq-ok (context _ (metadata_of (fs.symlink_metadata path s))) _ h1 in
      let (_, regular, h3) = >>=-eq-ok (refuse (not file.is_file || file.is_symlink) _) _ h2 in
      let (_, closed, last) = >>=-eq-ok (refuse (grants_others file.mode) _) _ h3 in
      let kind = refuse-eq-ok _ _ regular in
      let (at, private) = validate_secure_directory-eq-ok root s around in
      (
        file,
        directory,
        metadata_of-eq-ok _ (context-eq-ok _ _ read),
        at,
        ground arith,
        ground arith,
        refuse-eq-ok _ _ closed,
        private,
        (==_iff file.uid directory.uid).0 (refuse-not-eq-ok _ _ last),
      )

module _ {S F : Type 0} ⦃f : F32 F⦄ (fs : FileSystem S) (root : FilePath) where
  -- What was read from the node's file: a valid state of this node.
  abbrev pub IsLoaded : NodeId → OriginalPowerState F → S → Type 0
  IsLoaded node state s =
      IsToken node
      × ((content : Text) × (fs.read_to_string (state_path root node) s ≡ ok content)
          × (decode content ≡ ok state))
      × (state.node ≡ node)
      × IsValid state

  load-IsLoaded :
      (node : NodeId) (s : S) {state : OriginalPowerState F}
      → load fs root node s ≡ ok state
      → IsLoaded node state s
  unfolding load load_from
  load-IsLoaded node s h =
      let (path, named, h1) =
        >>=-eq-ok (path_for root node) (λ path. load_from fs root path node s) h in
      let (token, at) = path_for-eq-ok root node named in
      let (content, read, h2) = >>=-eq-ok (context _ (fs.read_to_string path s)) _ h1 in
      let (state, decoded, h3) = >>=-eq-ok (decode content) _ h2 in
      let (_, same, last) =
        >>=-eq-ok (refuse (not (text_eq state.node node)) _) (λ _. ok state) h3 in
      subst (λ x. IsLoaded node x s) (ok-injective last)
        (
          token,
          (
            content,
            subst (λ p. fs.read_to_string p s ≡ ok content) at (context-eq-ok _ _ read),
            decoded,
          ),
          (text_eq_iff state.node node).0 (refuse-not-eq-ok _ _ same),
          decode-IsValid content decoded,
        )

  pub load_for_write-IsLoaded :
      (node : NodeId) (s : S) {state : OriginalPowerState F}
      → load_for_write fs root node s ≡ ok state
      → IsLoaded node state s × IsSecure fs root (state_path root node) s
  unfolding load_for_write
  load_for_write-IsLoaded node s h =
      let (path, named, h1) =
        >>=-eq-ok (path_for root node)
          (λ path. validate_secure_metadata fs root path s >> load fs root node s) h in
      let (_, secure, loaded) =
        >>=-eq-ok (validate_secure_metadata fs root path s) (λ _. load fs root node s) h1 in
      (
        load-IsLoaded node s loaded,
        subst (λ p. IsSecure fs root p s) (path_for-eq-ok root node named).1
            (validate_secure_metadata-IsSecure fs root path s secure),
      )

  -- The state was captured neither after `now` nor longer ago than the maximum age, in whole seconds.
  abbrev pub IsRecent : OriginalPowerState F → SystemTime → Duration → Type 0
  IsRecent state now maximum_age =
      (since : Duration) × (duration_since now unix_epoch ≡ some since)
      × (state.captured_at_unix_seconds ≤ as_secs since)
      × (as_secs since - state.captured_at_unix_seconds ≤ as_secs maximum_age)

  check_age-IsRecent :
      (state : OriginalPowerState F) (now : SystemTime) (maximum_age : Duration)
      → check_age fs root state now maximum_age ≡ ok tt
      → IsRecent state now maximum_age
  unfolding check_age
  check_age-IsRecent state now maximum_age h =
      let (since, known, h1) = >>=-eq-ok (ok_or (duration_since now unix_epoch) _) _ h in
      let (_, past, old) =
        >>=-eq-ok (refuse (ltb (as_secs since) state.captured_at_unix_seconds) _) _ h1 in
      let before = refuse-eq-ok _ _ past in
      let young = refuse-eq-ok _ _ old in (since, ok_or-eq-ok _ _ known, ground arith, ground arith)

  -- A state that `load_fresh_for_write` returns is a valid state of the node that was asked for, read
  -- from the node's file, which is a regular file that is closed to others and has the owner of its
  -- directory, which is closed to others too; and it was captured neither in the future nor longer ago
  -- than the maximum age.
  pub load_fresh_safe :
      (node : NodeId) (now : SystemTime) (maximum_age : Duration) (s : S)
      {state : OriginalPowerState F}
      → load_fresh_for_write fs root node now maximum_age s ≡ ok state
      → IsLoaded node state s
        × IsSecure fs root (state_path root node) s
        × IsRecent state now maximum_age
  unfolding load_fresh_for_write
  load_fresh_safe node now maximum_age s h =
      let (state, loaded, h1) =
        >>=-eq-ok (load_for_write fs root node s) (λ x. check_age fs root x now maximum_age >> ok x)
          h in
      let (_, recent, last) =
        >>=-eq-ok (check_age fs root state now maximum_age) (λ _. ok state) h1 in
      let (found, secure) = load_for_write-IsLoaded node s loaded in
      subst
        (λ x.
          IsLoaded node x s
          × IsSecure fs root (state_path root node) s
          × IsRecent x now maximum_age)
        (ok-injective last) (found, secure, check_age-IsRecent state now maximum_age recent)
