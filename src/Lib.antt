-- ===== src/Lib.antt =====
-- Nordfir: deciding when a node may go to rest, and changing its power settings safely.
--
-- This library models archive/rust/src of the repository. An intent is turned into a candidate
-- action, guards judge the action on a snapshot of the node, and an authority decides on it. A planner
-- turns the node's capabilities into a REST plan. The original settings are saved to a file first; a
-- driver applies the plan to the kernel's cpufreq files, verifies every write and rolls back on
-- failure; the settings are restored from the file, which then moves to an archive. Applying and
-- restoring are recorded in an audit log, the intent before the operation and the outcome after it.
--
-- The files, and the code that each is about:
--   Core, Action          core/*.rs, action.rs: intents, observations, snapshots, actions
--   Authority             authority/mod.rs, policy.rs: PolicyAuthorityGate::authorize
--   Guards                guards/*.rs: the four guards; Guards.Outcomes states when each lets pass
--   Engine                engine.rs: Engine::evaluate; Engine.Safety for the engine of main.rs
--   Energy                energy/*.rs: RestPlan is RestPlanner::plan, Provider is PowerReader::read_best,
--                         Hwmon the sensor of hwmon.rs, Shutdown the estimate of estimate.rs
--   State.OriginalPower   state/original_power.rs: OriginalPowerState, its text and its checks
--   State.Store           state/original_power.rs: OriginalPowerStateStore over Files;
--                         Store.Lifecycle is inspect_lifecycle and inspect_archive
--   State.PowerProbe      state/linux_power.rs: LinuxPowerProbe::probe
--   State.Collector       state/linux.rs: LinuxStateCollector::collect
--   Files                 what the program asks of std::fs, and its checks of owners and permissions
--   Drivers.Transaction   the loop with rollback that apply and restore_active share
--   Drivers.LinuxRest     drivers/linux_rest.rs: LinuxRestDriver over the kernel's files
--   Drivers.DryRun        drivers/dry_run.rs: DryRunDriver
--   Preflight             preflight/mod.rs: the readiness report
--   Deployment            deployment/mod.rs: LinuxProcessSecurity
--   Service               service.rs: ObserverConfig, ObserverHeartbeat and ObserverService::run
--   Audit                 audit/mod.rs: events, receipts and the fanout; Audit.LogChecks is what the
--                         sinks check, Audit.Sinks the sinks for files and sockets
--   Host                  what the program asks of the clock, the console and the environment
--   Cli                   main.rs: the sinks it configures, record_audit, finish_audited; Cli.Printing
--                         is the lines it prints, Cli.Writing the commands that write, Cli.Reading and
--                         Cli.Status the commands that read, Cli.Dispatch is run itself; the other
--                         modules of Cli are proofs: Intent, Outcome and Permission on the order of
--                         the log's lines, Applied and ApplyLocal, Restored and RestoreLocal on the
--                         two commands from end to end
--   Base, Format, Float   what the source uses of Rust: results, texts, numbers, f32
--   Tests                 the theorems at concrete inputs
-- (paths are below archive/rust/src)
--
-- How the code is modelled. A String is the list of its code points. Result<A, String> is Result, with
-- `?` as the bind of a do block; an operation that changes the outside world is a function from a state
-- to a result and a state, so that what was done before an error stays done; what only reads is a
-- function of the state. f32 is a parameter with the operations that the source uses; where a proof
-- needs it, comparison is an order, or a finite number reads back as it was printed, by the laws in
-- Float. The file system, the kernel's files, the sockets, the clock and the console are parameters
-- with their documented behaviour as laws (Files.Laws, Drivers.LinuxRest.Files, Audit.Sinks.Sent,
-- Host). An open file is its path and an open socket a number. A guard is given the reading of the
-- clock. A call that may panic returns an Option; a command whose planner panics ends with none. u64
-- counters wrap. The observer's loop runs on fuel; with a limit of m rounds, m is enough, and a command
-- that still runs when its fuel is used up also ends with none. All other loops are structural. Loops
-- that stop at the first error are written as recursion on the list, with the list of what was done so
-- far.
--
-- Not modelled: the branches for systems other than Linux, the texts that derived formatting prints
-- (parameters of Cli.Dispatch), and the traits of timing and watchers, which nothing implements.
-- energy/hwmon.rs and energy/estimate.rs are modelled but called by no other part.
pub mod Base
pub mod Format
pub mod Float
pub mod Core
pub mod Energy
pub mod Action
pub mod Authority
pub mod Guards
pub mod Engine
pub mod Files
pub mod State
pub mod Drivers
pub mod Preflight
pub mod Deployment
pub mod Service
pub mod Audit
pub mod Host
pub mod Cli
pub mod Tests
