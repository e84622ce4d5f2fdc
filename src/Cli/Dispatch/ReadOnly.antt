-- ===== src/Cli/Dispatch/ReadOnly.antt =====
-- main.rs, `run`: the commands but three change no file.
use nordfir.Host.{Host}
use nordfir.Cli.Dispatch.Leaves.{Leaves}
