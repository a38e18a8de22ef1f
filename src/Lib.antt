-- ===== src/Lib.antt =====
-- A model of the end-to-end test framework, and what is proved of it.
--
-- A test definition is a list of steps. A step executes a trigger, which may make the system under
-- test send messages, and then waits for receivers to collect these messages and checks them by
-- assertions. Webhooks hand messages to the ingestor, which puts them into a store, where a
-- receiver claims them. The API server starts runs and sequences of runs and keeps the last results.
--
-- Files:
-- - Prelude: the names and helpers that the parts share: byte strings and what the program uses of
--   `strings`, `strconv` and `fmt` on them, dictionaries for Go's maps, 64-bit integers.
-- - Domain: internal/core/domain (errors.go, test.go, trigger.go, receiver.go, message.go, result.go).
--   `Print` is how `fmt` prints values of bodies.
--   A Go error is an `Error`: the sentinel that `errors.Is` finds in it, and its text.
-- - Ports, Store: internal/core/ports. An interface is a record of operations over a type `W` of
--   states of the world. A map that the callee may write to goes in and comes back.
-- - Template: internal/pkg/template and its generators. The regular expressions are matchers at a
--   position, and `replace_all_func` is `ReplaceAllStringFunc` with the captured map as a state.
-- - Orchestrator: internal/core/services/orchestrator.go. `Run` holds the reservation of recipients
--   (`reserve_recipients`, `release_recipients`), `Collect` the receivers of a step
--   (`collect_and_assert_all`), `Steps` the two loops of `executeSequential` (`attempts`,
--   `run_steps`), `Execute` the functions `execute`, `RunTest` and `RunSequence`.
--   The proofs are in Status, Attempts, Passed, Retries, Sequence, Order, Identity,
--   Reservations, Released and Contended.
-- - Assertion: internal/pkg/assertion, one function for each kind of assertion, and the registry.
-- - Store/Memory, Store/Disabled, Store/Redis, Store/Postgres: the files of that name in
--   internal/adapters/secondary/store. `Store/Contract` is what a store promises to its users, by two
--   observations of its state; the module `Refines` of a store is about the contract, `Answers` about
--   an environment in which nothing fails, and `Users` about what follows for the store's users.
-- - Http: internal/adapters/secondary/trigger/http.go. `Request` is how a request is put together,
--   which receiver/api/receiver.go does in the same way, and `Trigger` the function `Execute`.
-- - Receivers: internal/adapters/secondary/receiver. `Poll` is the loop of the webhook and the IMAP
--   receiver, `Api` that of the API receiver, `Mail` the search and the parser of imap/client.go and
--   imap/parser.go.
-- - Notifier: internal/adapters/secondary/notifier/http.go.
-- - Ingestor: internal/core/services/ingestor.go.
-- - Webhook: internal/adapters/primary/webhook (`Server`, `Providers`) and the extraction of fields in
--   internal/pkg/httputil/payload.go (`Payload`).
-- - Registries: registry.go of internal/adapters/secondary/trigger, receiver and store.
-- - Groups: internal/core/services/group_resolver.go, and the checks of internal/pkg/config/config.go.
-- - Config: the types and the loading of internal/pkg/config/config.go and loader.go.
-- - Logger: internal/pkg/logger/logger.go. `Events` has the loggers and their events. The line that
--   the orchestrator logs at the end of a run is in `Orchestrator/Finished`; the other calls of loggers
--   are left out.
-- - Scheduler, Startup: internal/adapters/primary/cron/scheduler.go, and cmd/server/main.go up to the
--   start of the server.
-- - HttpServer: the routes and the middleware of internal/adapters/primary/api/server.go, with those of
--   internal/adapters/primary/webhook/server.go on one mux, as cmd/server/main.go has it. `Reach` is the
--   service as a transition system: requests, runs that finish, and runs that cron starts.
-- - Wiring: cmd/server/main.go, where it makes the registries and the orchestrator out of the adapters.
-- - Lifecycle: the goroutines at the end of cmd/server/main.go, as a transition system.
-- - Api: internal/adapters/primary/api/server.go. `Cache` is the result cache, `Handlers` the
--   handlers, `Eviction` the cache as a list of runs.
-- - Tests: concrete worlds, and the theorems at concrete inputs.
--
-- Bounds. Every loop of the code is a recursion on the list or the number that it counts, so that
-- no fuel is needed; the attempts of a step are counted down from `step_max_attempts`, and the ticks
-- of a receiver that waits from the number that comes before its context is done (`Waiting`). An `int64`
-- that a counter computes wraps around by `wrap64`; the counters of the result do not reach 2^63.
-- Times are nanoseconds since Go's zero time, durations are signed.
--
-- Concurrency. The goroutines that collect for one step run one after the other, in an order that
-- `finish_order` gives and that no theorem restricts; interleavings of their steps outside the
-- critical section are not modelled. The handlers are atomic, and the goroutine of an asynchronous
-- run stores its result in a later step of its own. When the goroutine of a failure's notification
-- does its work is left to the environment (`go` of `Ports`).
--
-- Parameters. encoding/json, net/http with its `ServeMux`, net/url, log/slog, regular expressions of
-- test definitions, gjson, go-imap and go-message, the client of go-redis, the pool of pgx with the
-- failures of statements and with what columns of the types JSONB and TIMESTAMPTZ keep, the parser of robfig/cron, yaml.v3, files and the environment, the source of
-- random numbers and UUIDs, the clocks, the ticks before a context is done, and the triggers,
-- receivers, stores and notifiers that a run uses. What cron, errgroup and the signals of the system
-- do is the choice of the steps in Scheduler/Cron and Lifecycle.
--
-- Not modelled: most log lines and the clock readings that only they use; contexts that are never done,
-- and their cancellation for another reason than a timeout; statements of Postgres that fail and
-- take effect all the same; at which times cron calls an entry; the encoding of responses; runs
-- that go on while the process ends.
pub mod Prelude
pub mod Domain
pub mod Template
pub mod Store
pub mod Ports
pub mod Orchestrator
pub mod Assertion
pub mod Ingestor
pub mod Groups
pub mod Api
pub mod Webhook
pub mod Registries
pub mod Http
pub mod Notifier
pub mod Config
pub mod Logger
pub mod Scheduler
pub mod HttpServer
pub mod Wiring
pub mod Lifecycle
pub mod Startup
pub mod Receivers
mod Tests
