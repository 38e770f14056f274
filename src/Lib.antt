-- ===== src/Lib.antt =====
-- The reservation worker: a process that reads reservation and payment events from SQS and brings the
-- inventory service and the reservation API up to date.
--
-- The program's parts. SQSPoller (internal/worker/poller.go) receives messages, decodes each into an
-- Event and sends it to eventsChan; it deletes a message as soon as its event is in that channel. The
-- Dispatcher (internal/worker/dispatcher.go) passes events from eventsChan to idle Workers
-- (internal/worker/worker.go), each a goroutine that registers its channel in workerPool, waits there
-- and calls HandleEvent. HandleEvent routes the event to one of three handlers
-- (internal/handler/expired.go, approved.go, failed.go), records metrics, and on an error sleeps and
-- calls itself. The handlers parse the detail (internal/handler/event.go) and call the inventory by
-- gRPC and the reservation API by HTTP (internal/client). Settings come from environment variables
-- and AWS Secrets Manager (internal/config).
--
-- Files.
--   Base        shared: Boolean tests and their case splits (Tests), lists measured by native numbers
--               (Lists), Go's integers with their wrap-around (Int), code points (Text), Go's errors
--               (Errors) and the bind of a result that may be an error (ResultDo).
--   Json        encoding/json as far as it is used. A text is represented by the JSON value that it
--               spells, `none` where it spells none, and json.RawMessage likewise. Unmarshalling goes
--               key by key, with Go's case folding of keys, null as no change, and the integers'
--               ranges. Arrays replace the field: a null inside an array that repeats a key, where Go
--               would keep an old element, is not modelled.
--   Event       internal/handler/event.go: Event and the three details (Decode), ParseEventDetail
--               (Defs: parse_event_detail), its laws and round trips.
--   Metrics     internal/observability/metrics.go: a counter is the list of its increments, and a
--               histogram keeps the labels of its observations without the durations. Registry has
--               what NewMetrics registers.
--   Logger      internal/observability/logger.go: the settings of NewLogger, the fields that the loggers
--               add, and the loggers that the handlers and HandleEvent choose.
--   Tracing     internal/observability/tracing.go: InitTracing and the status of spans.
--   Runtime     the state (trace of calls, metrics, events handed over) and the environment.
--   Client      internal/client/inventory.go and reservation.go.
--   Handler     the Handle methods. Each is cut into handle_* (parse), dispatch_* (the type test) and
--               process_* (the span and the calls). Kinds puts the three side by side; Outcomes, Order,
--               Saga, Refine and Calls hold what is proved of them.
--   Config      internal/config/config.go and secrets.go, with strconv.Atoi and strconv.ParseBool.
--   Dispatcher  HandleEvent (Defs: handle_event), as a run of attempts (Runs, Verdict, Counters), and
--               how long they sleep (Slept) and what they send downstream (Effects, Stuck).
--   Retry       internal/retry/retry.go: Do, DoWithResult and IsRetryable.
--   Poller      internal/worker/poller.go: pollOnce, processMessage, deleteMessage and Start, by
--               what becomes of one message (Offer), of a poll (Delivery), of the loop (Loop, Matched).
--   Pool        Dispatcher.Start, dispatch and Stop, and Worker.Start, as steps of goroutines (Defs), by
--               the order of events (Order, Accounting), the channels of the workers (Ownership), the
--               end (Shutdown, Gauge), the work that is left (Work, Progress, Drain, Rest), runs with
--               and without timeouts (Lost, Prompt, Serves), and as a queue before servers, with bags
--               of events where that forgets their order (Service, Refine).
--   Server      internal/server/grpc.go (Grpc), and the endpoints of startHTTPServer (Http).
--   Process     cmd/reservation-worker/main.go: up to its wait for a signal as a function (Startup,
--               Checks), and from there on as steps of main beside the goroutines that it started
--               (Shutdown, Exit, Refine, Ends, Race, Losses).
--   System      the pool with every worker calling HandleEvent, and what that adds to EventsTotal. The
--               calls are independent: each has a state and an environment of its own, and their
--               increments add up when they return (Defs, Ledger). Joint puts the poller beside the
--               pool: the events that a round of the poller sends are those that the pool accepts
--               while the round lasts; Whole puts the three together.
--   Wiring      what the objects of a process hold: the handlers' constructors, NewDispatcher, NewWorker,
--               Dispatcher.Start's loop, NewSQSPoller and main's calls of them (Defs), and what they
--               share (Shared). An object behind a pointer, and a channel, is a number.
--   Samples     concrete events, settings and environments. The Tests of each part use them.
--
-- State and environment. A method is a function on State, which returns its result and the new state.
-- Whatever is outside (gRPC, HTTP, SQS, the context, a select, whether http.NewRequest accepts a URL,
-- whether a text is an RFC 3339 time) is a field of the parameter Env, which answers from the list of
-- all calls so far, so that answers may change from call to call. What main stands on is the parameter
-- Host: os.Getenv, the AWS SDK (Aws), zap's production settings and Build, and grpc.NewClient. The
-- OpenTelemetry SDK is the parameter Sdk, and net.Listen is an argument. No theorem assumes anything
-- of them beyond the hypotheses it names.
--
-- Bounds and fuel. Integers of Go are integers over the native numbers, cut to 32 or 64 bits where the
-- source converts or multiplies them. HandleEvent recurses on fuel: a worker's call is given one unit
-- more than max_retries (enough_fuel), and each attempt uses one. The loop of Do and DoWithResult is
-- given max_retries units. The polling loop, which is meant to run forever, is given a number of
-- rounds, and `none` says that it still polls after them.
--
-- The pool. Step has one constructor for each way in which a goroutine can go on. A timeout of
-- dispatch may come at any time while it waits, since a goroutine that is ready may still be late;
-- InTime are the states before any timeout (Prompt). The nil event that a closed channel would
-- give a worker cannot occur, since no channel of events is closed. A negative
-- WORKER_CONCURRENCY, on which make panics, is a failure of the start in Process.
--
-- The process. main's steps behind the signal are interleaved with those of the pool and with the
-- ends of the four goroutines of its wait group. ListenAndServe returns only by failing, since
-- nothing calls Shutdown or Close on that server. GracefulStop of the gRPC library is taken to
-- return. Dispatcher.Start starts its goroutines in one step, before or behind which a signal may
-- come, and sets the gauge of active workers in a later one; where dispatcher.Stop() comes first,
-- it waits for nothing. The double of the concurrency wraps around like an int, and a negative size
-- ends the start; a size too large for make to allocate is left out.
--
-- Not modelled: the log lines themselves (which logger writes them is in Logger), the wrappers Tracer,
-- StartSpan and AddSpanEvent, which pass their arguments on to the OpenTelemetry library, the deferred
-- Sync and Close of main, the text level of JSON, and the deployment files. They print, belong to
-- library services, or are not the program's own logic.
mod Base
pub mod Json
pub mod Event
pub mod Metrics
pub mod Runtime
pub mod Logger
pub mod Tracing
pub mod Client
pub mod Handler
pub mod Config
pub mod Dispatcher
pub mod Retry
pub mod Server
pub mod Poller
pub mod Pool
pub mod Process
pub mod System
pub mod Wiring
mod Samples
