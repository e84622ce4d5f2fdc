-- ===== src/Service.antt =====
-- archive/rust/src/service.rs: the observer's settings, its heartbeat and its loop.
pub mod Loop
use nordfir.Base.{
  ℕ, zero, suc, ◌+◌, ◌%◌, ◌^◌, Bool, true, false, ◌||◌, Option, none, some, List, [], ◌∷◌, ◌++◌,
  Text, str, text_eq, Result, ok, err, ◌>>=◌, ◌>>◌, refuse, context, map_ok, ◌==◌, if◌then◌else◌,
}
use nordfir.Base.Io.{Io, continue, context as context_io}
use nordfir.Base.Time.{Duration, from_secs}
use nordfir.Format.{decimal, parse_unsigned, max_u64}
use nordfir.Float.{F32}
use nordfir.Energy.Measurement.{PowerReading}
use nordfir.Core.{NodeSnapshot, Observation, ObservationValue}

pub record ObserverConfig : Type 0 where
  pub interval : Duration
  pub maximum_cycles : Option ℕ

abbrev is_some_zero : Option ℕ → Bool
is_some_zero none = false
is_some_zero (some n) = n == 0

-- `ObserverConfig::new`
unfoldable pub new_config : Duration → Option ℕ → Result ObserverConfig
new_config interval cycles = do
  refuse (interval == 0) (str "observer interval must be greater than zero")
  refuse (is_some_zero cycles) (str "observer maximum cycles must be greater than zero")
  ok (record { interval = interval; maximum_cycles = cycles })

-- The `match` of `from_arguments`.
unfoldable pub split_arguments : List Text → Result (Text × Option Text)
split_arguments (flag ∷ interval ∷ []) =
    if text_eq flag (str "--interval-seconds")
    then ok (interval, none)
    else err (str "requires --interval-seconds <seconds> [--max-cycles <count>]")
split_arguments (flag ∷ interval ∷ cycles_flag ∷ cycles ∷ []) =
    if text_eq flag (str "--interval-seconds")
    then (if text_eq cycles_flag (str "--max-cycles")
        then ok (interval, some cycles)
        else err (str "requires --interval-seconds <seconds> [--max-cycles <count>]"))
    else err (str "requires --interval-seconds <seconds> [--max-cycles <count>]")
split_arguments _ = err (str "requires --interval-seconds <seconds> [--max-cycles <count>]")

unfoldable pub parse_cycles : Option Text → Result (Option ℕ)
parse_cycles none = ok none
parse_cycles (some text) =
    context (str "parse observer maximum cycles: ")
      (map_ok (λ n. some n) (parse_unsigned max_u64 text))

unfoldable pub from_arguments : List Text → Result ObserverConfig
from_arguments arguments = do
  (interval, cycles) ← split_arguments arguments
  seconds ← context (str "parse observer interval: ") (parse_unsigned max_u64 interval)
  maximum ← parse_cycles cycles
  new_config (from_secs seconds) maximum

pub record ObserverHeartbeat (F : Type 0) : Type 0 where
  pub sequence : ℕ
  pub snapshot : NodeSnapshot F

-- `observation_value`, with how a value is displayed
unfoldable pub observation_value : {A : Type 0} → (A → Text) → Option (Observation A) → Text
observation_value display none = str "missing"
observation_value display (some o) = elim o.value [
  | ObservationValue.known a ↦ display a
  | ObservationValue.unknown reason ↦ str "unknown"
  | ObservationValue.unavailable reason ↦ str "unavailable"
]

module _ {F : Type 0} ⦃f : F32 F⦄ where
  unfoldable pub power_value : Option (PowerReading F) → Text
  power_value none = str "missing"
  power_value (some reading) = f.display_fixed 1 reading.watts

  unfoldable pub encode_line : ObserverHeartbeat F → Text
  encode_line heartbeat =
      str "observer heartbeat sequence="
      ++ decimal heartbeat.sequence
      ++ str " node="
      ++ heartbeat.snapshot.node
      ++ str " cpu_percent="
      ++ observation_value f.display heartbeat.snapshot.cpu_utilization_percent
      ++ str " memory_percent="
      ++ observation_value f.display heartbeat.snapshot.memory_utilization_percent
      ++ str " load_1m="
      ++ observation_value f.display heartbeat.snapshot.load_average_1m
      ++ str " uptime_seconds="
      ++ observation_value decimal heartbeat.snapshot.uptime_seconds
      ++ str " power_watts="
      ++ power_value heartbeat.snapshot.power

pub record ObserverRunSummary : Type 0 where
  pub completed_cycles : ℕ

-- `ObserverRuntime`, over a state `S` that holds the runtime and all that it reaches.
pub record ObserverRuntime (S : Type 0) : Type 0 where
  pub stop_requested : S → Bool × S
  pub wait : Duration → S → S

module _ {S F : Type 0} (collect : Io S (NodeSnapshot F))
    (publish : ObserverHeartbeat F → Io S (Unit {0})) where
  unfoldable pub publish_next : ℕ → NodeSnapshot F → Io S ℕ
  publish_next next snapshot s =
      let (published, s') =
        context_io (str "observer publish failed during cycle " ++ decimal next ++ str ": ")
          (publish (record { sequence = next; snapshot = snapshot })) s in
      (map_ok (λ _. next) published, s')

  -- One round: collect, count, publish. The result is the number of rounds so far.
  unfoldable pub cycle : ℕ → Io S ℕ
  cycle completed s =
      let (collected, s') =
        context_io
          (str "observer collection failed after " ++ decimal completed ++ str " cycle(s): ")
          collect s in
      continue collected (publish_next ((completed + 1) % 2 ^ 64)) s'

-- `self.config.maximum_cycles == Some(completed_cycles)`
unfoldable pub is_last : Option ℕ → ℕ → Bool
is_last none completed = false
is_last (some n) completed = n == completed

abbrev pub summary : ℕ → ObserverRunSummary
summary completed = record { completed_cycles = completed }

module _ {S F : Type 0} (config : ObserverConfig) (runtime : ObserverRuntime S)
    (collect : Io S (NodeSnapshot F)) (publish : ObserverHeartbeat F → Io S (Unit {0})) where
  open runtime use {stop_requested, wait}

  -- The `while` loop: at most `fuel` rounds, `none` when they are used up.
  unfoldable pub run_from : ℕ → ℕ → S → Option (Result ObserverRunSummary × S)
  run_from zero completed s = none
  run_from (suc fuel) completed s = elim (stop_requested s).0 [
    | true ↦ some (ok (summary completed), (stop_requested s).1)
    | false ↦
        let (r, s') = cycle collect publish completed (stop_requested s).1 in
        elim r [
          | err e ↦ some (err e, s')
          | ok next ↦ elim (is_last config.maximum_cycles next) [
            | true ↦ some (ok (summary next), s')
            | false ↦ elim (stop_requested s').0 [
              | true ↦ some (ok (summary next), (stop_requested s').1)
              | false ↦ run_from fuel next (wait config.interval (stop_requested s').1)
            ]
          ]
        ]
  ]

  -- `ObserverService::run`
  abbrev pub run : ℕ → S → Option (Result ObserverRunSummary × S)
  run fuel = run_from fuel 0
