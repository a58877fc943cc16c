-- ===== src/Lib.antt =====
-- TraceBloom: a verification library of its TypeScript packages.
--
-- The program collects the spans of language-model applications, stores them in ClickHouse,
-- shows each trace as a tree that grows while the trace runs, and evaluates the spans in a
-- worker.
--
-- Base, Dict and Text hold what all parts share: Boolean tests, lists, an interface for values
-- compared by ===, the Map of JavaScript in insertion order, strings as code points, decimal
-- numerals, and a stable sort.
--
-- Traces (apps/dashboard/lib/traces.ts) has the rows of the queries, what getTraceDetail makes
-- of them (Traces.Detail): offsets from the earliest start, and the totals of the trace, and
-- what getSpanDetail does (Traces.Opened).
--
-- Live (apps/dashboard/lib/live.ts) has the state that a browser keeps of a running trace:
-- Live.Cursor the resume cursor, Live itself applyDelta, Live.View seedLiveState and
-- deriveTraceView. Live.Merge and Live.Snapshot hold the proofs. The server's snapshot of Traces
-- is what the state is seeded from, and deltas of later rows are merged into it.
--
-- Tree (apps/dashboard/lib/trace-tree.ts) has buildSpanTree in the phases of its source: Tree
-- the nodes and their parent links, Tree.Cycles the loop that cuts cycles, Tree.Order children,
-- roots, the walk with a stack, and flattenVisible, Tree.Rollup evaluations and roll-ups,
-- Tree.Build the composition. It reads the spans that Traces and Live derive. A reference from
-- node to node is the id of the node in the store `by_id`.
--
-- Broker (apps/dashboard/lib/live-broker.ts) has the broker that shares one poller of a trace
-- among its subscribers: Broker subscribe and detach, Broker.Poller trimBoundaryReplays,
-- Broker.Steps tick and catchUp. The pollers are objects in a store by number, the order of
-- events is a sequence of steps (Broker.Reach), and a fetch of deltas, the clock and the answer
-- of a subscriber's `send` are arguments. The deltas that it broadcasts are those that Live
-- merges. Broker.Bounds, Broker.Leaves, Broker.Joins and Broker.Replays hold the proofs.
--
-- RateLimit (apps/dashboard/lib/rate-limit.ts) has the token buckets that guard the public
-- endpoints, with the least recently seen key evicted from the map, and the key of a client.
-- RateLimit.Bounds and RateLimit.Retry hold the proofs. The named registry on globalThis is not
-- modelled.
--
-- Regression (apps/eval-runner/src/regression.ts) has the choice of a baseline variant and the
-- comparison of the others with it, which the evaluation worker runs after scoring.
--
-- Evaluators (packages/eval/src/deterministic.ts) has the rule-based evaluator that the worker
-- runs on a span's text, and Evaluators.Judge (packages/eval/src/judge.ts) the retry loop and
-- the score of the model that judges one, whose bounds are in Evaluators.Scale. JSON, schemas,
-- regular expressions and string primitives are a record that the definitions take.
--
-- Results has the row that stores an evaluation (apps/eval-runner/src/results.ts),
-- Results.Events the event of one (packages/eval/src/result.ts, packages/sdk-ts/src/evals.ts),
-- and Results.Promote how events of applications become rows (apps/eval-runner/src/sdk-
-- results.ts). Json has the shapes that JSON.parse may give; the parser itself is a parameter.
--
-- Runner (apps/eval-runner/src) has the worker that evaluates stored spans: Runner.Spans
-- (spans.ts) the texts of a span and the sampling, Runner.Scoring the candidates, the cache and
-- the rows of runEval, Runner.Run and Runner.Once (runner.ts, evaluators.ts) runEval, its
-- regression pass and runOnce, Runner.Workers (concurrency.ts) the pool of loops. A run is a
-- function of the store of results, watermarks and raised regressions, which returns a result or
-- an error beside the store that it leaves; what the services answer is the record Services, and
-- the time that the database sets on a regression's row is one of these answers. It scores by
-- way of Evaluators, stores rows of Results, and compares variants by Regression.
--
-- Pricing (packages/sdk-ts/src/pricing.ts) has the price of a model and the cost of a call. The
-- names that every object inherits are an argument.
--
-- Telemetry (packages/sdk-ts/src/vercel.ts) has the integration that turns the events of the AI
-- SDK into spans: Telemetry the store of spans and the state of an operation, Telemetry.Content
-- the event types and stringifyContent, Telemetry.Starts and Telemetry.Finishes the handlers,
-- Telemetry.Events their composition over a sequence of events. It sets the costs of Pricing.
-- Telemetry.Weights, Telemetry.Edits, Telemetry.Effects, Telemetry.Handled and Telemetry.Ends
-- hold the proofs, which count for each span the places that hold it and the calls that end it.
-- Telemetry.Wrappers (packages/sdk-ts/src/openai.ts, packages/sdk-ts/src/agent.ts) has the
-- functions that run one call inside a span of its own, and Telemetry.Transparent their proofs.
--
-- Rail (apps/dashboard/lib/live-list.ts) has the cache of the list of running traces, and
-- Rail.Load counts the queries that it makes.
--
-- Sandbox (apps/dashboard/lib/sandbox.ts) has the admission of sandbox runs: how many at a time,
-- and how many a day. The scripted run that is admitted is not modelled.
--
-- Numbers: counts, times and nanoseconds are natural numbers. Costs, scores and tokens of the
-- rate limiter are binary floating point numbers in the source, and natural numbers in some unit
-- here, or integers for a judge (Base.Signed): their rounding is not modelled, and so nothing is
-- said of whether the wait that the rate limiter tells a client is enough, which rounding
-- decides. Traces.Double has the rounding of `Number` on a BigInt, for the offsets of spans.
-- Absolute times are BigInt decimal strings in the source, and their value here. The conversion
-- of a start to an ISO date is left out, and the milliseconds that it converts are kept.
--
-- Fuel: the loop of the judge counts down the maxRetries + 1 passes it has. The walk up the
-- parent links gets one more step than there are nodes, and so does the walk down with a stack;
-- both walks are shown to end before the fuel does. The unit that `Number` rounds to is doubled
-- at most 1024 times, past which the source has Infinity.
--
-- Not modelled: the SQL and its client, React components and route handlers, the collector
-- (Rust), the Python SDK, the set-up of the TypeScript SDK, sample data, tests and deployment.
pub mod Base
pub mod Dict
pub mod Text
pub mod Traces
pub mod Live
pub mod Tree
pub mod Evaluators
pub mod Sandbox
pub mod Broker
pub mod RateLimit
pub mod Regression
pub mod Json
pub mod Results
pub mod Runner
pub mod Pricing
pub mod Rail
pub mod Telemetry
