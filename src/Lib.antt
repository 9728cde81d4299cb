-- ===== src/Lib.antt =====
-- IoT Edge: an industrial edge-computing platform (backend/, in Go).
--
-- The backend reads raw bytes of field devices through Modbus gateways, decodes them into tag
-- values, computes calculated tags from expressions, keeps the latest values in a store that feeds
-- subscribers, logs them on schedules and hands committed batches on, and sets all of it in a
-- hierarchy of assets with measurements that are rolled up. Plugins compute energy from the batches.
--
-- Which file models which part:
--   Value            the dynamic values (`any`), data types, floats as bit patterns, text
--   Tag/Converter    backend/internal/tag/converter.go: ConvertBinary, ApplyByteOrder
--   Tag/Decoder      backend/internal/tag/decoder.go: NormalizeConfig, Decode
--   Tag/Expression   backend/internal/tag/expression.go: lexer, parser, evaluator
--   Tag/Coerce       backend/internal/tag/service.go: coerceTagValue; Value/Float/Exact computes the
--                    integers of floats from their bits
--   Tag/Store        backend/internal/tag/value_store.go: MemoryValueStore, its subscribers and snapshots
--   Tag/Dependencies backend/internal/tag/service.go: validateDependencyGraph, graphCycleState; and
--                    transform.go: the linear transform
--   Tag/Reading      backend/internal/tag/service.go: ProcessReadingSample, the reading branch of
--                    normalizeConfig; the registry of decoders of backend/cmd/server/main.go
--   Modbus           backend/internal/protocol/modbus: modbus.go and tcp.go (Request, Client), driver.go
--                    (Config, Sample, Driver), error.go (Failure)
--   Datalogger/Batch, Datalogger/Broker
--                    backend/internal/datalogger/committed_batches.go: validCommittedBatch, cloneRawBatch,
--                    CommittedBatchBroker and its subscriptions; history.go: the types of batches
--   Datalogger/Interval
--                    backend/internal/datalogger/interval_scheduler.go: validateIntervalLogger, Capture,
--                    nextIntervalRun, latestIntervalRun, the loop of Run; model.go: its types
--   Datalogger/Schedule
--                    backend/internal/datalogger/calendar_scheduler.go: validateCalendarLogger,
--                    NextCalendarRun, Capture, the loop of Run; service.go: the schedule branch of
--                    normalizeConfig (Schedule/Config)
--   Asset/Hierarchy  backend/internal/asset/hierarchy.go: ValidatePlacement, ValidateAncestry,
--                    EffectiveEnabled
--   Asset/Semantic   backend/internal/asset/semantic.go: Validate, CanonicalUnit
--   Asset/Rollup     backend/internal/asset/aggregation.go: BuildRollupPlan, virtualDependencyCycle
--   Publisher/Trigger
--                    backend/internal/publisher/trigger.go: normalizePublisherConfig, ParseTriggerConfig,
--                    normalizeTrigger
--   Plugin/Energy    backend/internal/plugin/energy/calculator.go: Evaluate (Energy/Calculator),
--                    Integrate (Energy/Period), integrateDemand
--
-- A driver reads the bytes of a datasource through the Modbus client; a tag's decoder takes its value
-- out of them with the converter, or its expression computes one; loggers put values into batches,
-- which the broker hands on. The store keeps the latest values of tags, from whose
-- snapshots expressions and loggers read. Not modelled: the rest
-- of publishers, plugins, and the services around them, which are for the most
-- part persistence and HTTP.
--
-- Conventions. A UUID is its 128-bit number, uuid.Nil is 0. A time is the number of nanoseconds
-- since Go's zero time, a duration a number of nanoseconds. Text is a list of bytes or code points. An
-- error is a constructor; the text of an error is left out where the code does not read it. float64
-- and float32 are their IEEE 754 bit patterns: NaN, infinity, comparison and sign are computed from
-- the bits, and what rounds (+, -, *, /, math.Mod, conversions, strconv.ParseFloat) is a parameter,
-- the record Value.Float.Arithmetic. encoding/json is not modelled: a configuration is given as
-- what its text decodes to. go-modbus-client is the record Modbus.Client.Transport: its packets, its
-- faults and the state of a connection are types, and its calls functions on that state. What
-- errors.As and errors.Is find in a fault is a view of it. An operation under a lock is one step, so
-- an execution is a list of operations; a channel is the list of what its buffer holds.
--
-- A time zone is the record Datalogger.Schedule.Location: its wall clock, and the choice of time.Date.
--
-- Fuel. The loops of the converter run once for each byte at most. The lexer takes a byte or more
-- in each round, so one more than the number of bytes is enough. A binary level of the parser takes
-- a token in each round. The parser's nesting is bounded by the code itself, at 32. The loops over
-- bits and registers run once for each unit of the quantity. The visits of dependencies count down the
-- levels that the code's own maximum of 128 leaves.
pub mod Prelude
pub mod Value
pub mod Tag
pub mod Modbus
pub mod Datalogger
pub mod Asset
pub mod Publisher
pub mod Plugin
