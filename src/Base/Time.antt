-- ===== src/Base/Time.antt =====
-- `std::time`: a `SystemTime` in nanoseconds from the Unix epoch, a `Duration` in nanoseconds.
use Prim.Native.Nat.{ℕ, suc, ◌+◌, ◌-◌, ◌/◌, ◌*◌}
use mathlib.Core.Option.{Option, none, some}
use nordfir.Base.Bools.{leb, if◌then◌else◌}

-- `before n` is n + 1 nanoseconds before the epoch.
pub data SystemTime : Type 0 where
  since : ℕ → SystemTime
  before : ℕ → SystemTime

abbrev pub Duration : Type 0
Duration = ℕ

abbrev pub unix_epoch : SystemTime
unix_epoch = since 0

-- `later.duration_since(earlier).ok()`
unfoldable pub duration_since : SystemTime → SystemTime → Option Duration
duration_since (since a) (since b) = if leb b a then some (a - b) else none
duration_since (since a) (before b) = some (a + suc b)
duration_since (before a) (since b) = none
duration_since (before a) (before b) = if leb a b then some (b - a) else none

abbrev pub nanos : ℕ
nanos = 1_000_000_000

abbrev pub from_secs : ℕ → Duration
from_secs s = s * nanos

abbrev pub as_secs : Duration → ℕ
as_secs d = d / nanos
