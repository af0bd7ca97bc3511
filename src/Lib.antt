-- ===== src/Lib.antt =====
-- A model of the core of pikopod, an agent that watches the traffic to other parties' APIs for drift
-- and a sandbox that stands in for those APIs.
--
-- What the agent records of a call goes through the sanitizer first (`Sanitize`), its path segment
-- by segment (`Recorder`). The agent gives each request's path a template (`PathTemplates`),
-- learns what the responses of each family look like (`Baseline`), leaving out volatile fields
-- (`Volatile`), and freezes what it learned as the reference of the family. It compares each
-- response with the reference (`Drift.Diff`), gives each finding a fingerprint (`Drift`), and
-- hands it to the alerter (`Alert`), which reports each once and bounds what it keeps and sends.
-- Webhooks that pass through are checked for duplicates and order (`Webhooks`), and reported to
-- the same alerter. The sandbox routes a request (`Sandbox.Routes`), lets rules answer it
-- (`Sandbox.Rules`) and armed faults act on it (`Sandbox.Faults`, with the windows of
-- `Sandbox.Windows`), answers from recordings (`Replay`, with the identifiers of
-- `Sandbox.RecordedIds`), journals it (`Sandbox.Journal`) and emits webhooks
-- (`Sandbox.Deliveries`). Parallel test runs are kept apart by scopes (`Sandbox.Scopes`), which
-- reach the journal, the windows and the recordings.
--
-- Files and the code they model:
--   Base                 names that all modules share; Go maps (Base.Map), strings (Base.Bytes),
--                        integers (Base.Int), JSON values (Base.Json), elapsed time (Base.Time),
--                        sorted keys (Base.Sort), decimal numerals (Base.Decimal), classes
--                        of bytes (Base.Chars), texts split and joined (Base.Splits)
--   Sanitize             internal/sanitize/sanitizer.go: Classify; Sanitize.Walk: Sanitize
--   Recorder             internal/proxy/recorder.go: sanitizePath, urlUnescape
--   Volatile             internal/volatile/match.go: CompileSets, Leaf, Match, RecordDrop
--   PathTemplates        internal/pathtmpl/pathtmpl.go: Templatize, Guard.Apply, Guard.MergeKey
--   Baseline             internal/baseline/baseline.go: its records, Flatten, the loop of Observe
--   Baseline.Families    the same file: Observe, freeze, absorb, mergeFamiliesLocked, Reset, Refreeze
--   Drift, Drift.Diff    internal/drift/drift.go: Kind, Finding, Fingerprint, Diff
--   Alert, Alert.Report  internal/alert/alert.go: Report, reportFirst, emit, deliver, Ack, MaybeDigest
--   Webhooks             internal/agent/webhooks.go: observeDelivery
--   Replay               internal/replay/replay.go: MatchValueScoped, takeUnserved, ForgetScope
--   Sandbox.Journal      internal/sandbox/journal.go
--   Sandbox.Windows      internal/sandbox/rules.go (consumeWindow), faults.go (windowKey), scope.go
--   Sandbox.Faults       internal/sandbox/faults.go, and emitThroughFaults of webhooks.go
--   Sandbox.Deliveries   internal/sandbox/webhooks.go: the delivery log and the queue of the sink
--   Sandbox.Scopes       internal/sandbox/scope.go
--   Sandbox.RecordedIds  internal/sandbox/recorded_ids.go
--   Sandbox.Routes       internal/sandbox/routes.go
--   Sandbox.Seeding      internal/sandbox/scenario_surface.go (SeedResource), handler.go (quotaGuard)
--   Sandbox.Operations   internal/sandbox/operation.go: deriveOperation
--   Sandbox.Rules        internal/sandbox/rules.go: applyRules, ruleResponse
--   Sandbox.Envelope     internal/sandbox/envelope.go: expand
--   Divergence           internal/divergence/divergence.go: Compare
--   Scenario             internal/scenario/definition.go: step configurations; runner.go: FaultRuleFor
--   Mode, Mode.Enter     internal/mode/mode.go: Compile and Apply
--   Tests                runs of the theorems on concrete inputs
-- The proofs about a component stand in its child modules.
--
-- A Go struct is a record, a method a function from the state to the state, and a section under a
-- mutex one step. A map is an association list in which a key stands once; where the source ranges
-- over a map, the model goes through the list in its order, and the theorems hold for any order.
-- Strings are lists of bytes. Counters are unbounded numbers, since none gets near 2^63.
-- Loops recurse on their lists. There is fuel in two places: in `Base.Decimal.itoa`, one more than the
-- number, which has no more digits than that, and in `Sandbox.Envelope.expand`, one more than the
-- length of the template, of which each round takes some.
--
-- Where `Observe` of the baseline promotes a position of a path it merges families, and what it froze
-- or counted of them starts anew: the theorems about runs of responses say where they leave this out.
-- A write of a recorded identifier may fail; the store is then as it was, and the map is not.
--
-- Not modelled: HTTP, files, the SQL store and goroutine scheduling (the store of recorded
-- identifiers, the table of resources and what the rules use of the store are interfaces, and the
-- keys of recordings, the hash of a fingerprint, the rolls of floats, `json.Marshal`, the tokenizer
-- and `url.PathUnescape` are parameters); the compilation of the sandbox's rules, the runner of
-- scenarios, the importer and the command line.
pub mod Base
pub mod Sandbox
pub mod Replay
pub mod Sanitize
pub mod Recorder
pub mod Volatile
pub mod PathTemplates
pub mod Baseline
pub mod Drift
pub mod Alert
pub mod Webhooks
pub mod Divergence
pub mod Scenario
pub mod Mode
pub mod Tests
