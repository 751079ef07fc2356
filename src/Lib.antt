-- ===== src/Lib.antt =====
-- The worker pool of this program, its HTTP service, and the parts that both stand on.
--
-- Parts, and how they interact. A task (pkg/common/workerpool/task.go) carries a handler function and
-- the ways in which it signals its end. Tasks come from a cache (taskpool.go) and go back to it. A
-- worker (worker.go) is a goroutine that takes tasks from a queue and processes them until the queue
-- is closed, its context is closed or it is told to stop. A pool (pool.go) owns the queue and the
-- workers, either for one list of tasks (`RunOnline`) or in the background (`RunBG`, `AddTask`). The
-- service (pkg/common/workerpoolservice) runs groups of tasks in a background pool, and the handler
-- of pkg/app/httphandler/handler_wp.go computes factorials with it. All report typed errors
-- (pkg/common/error, pkg/common/recover). Every request to the program goes through `Process` of the
-- HTTP service (pkg/common/httpservice): it checks the method, the user or the token
-- (pkg/common/jwt, handler_auth.go), takes a buffer (pkg/common/bytespool), calls the handler, and
-- writes its answer or the error; handlers change the settings of the traffic log
-- (pkg/common/httplog) and of the logger (pkg/common/logger). The daemon's configuration
-- (pkg/app/config), the client for other services (pkg/common/httpclient) and the access to a
-- database (pkg/common/sqlxx) stand beside these. The daemon (pkg/app/daemon) makes the service of the
-- pool, the HTTP service and a server for it (pkg/common/httpserver), runs until a signal or an error,
-- and shuts them down in order.
--
-- Files:
--   Base, GoRuntime    shared names; panics, `defer`, channels, wait groups and timers of Go
--   Errors             error.go, error_typed.go and recover.go: keys, messages, constructors
--   Task               task.go: `Task.Process` is `process`, `Task.Run` what runs beside it
--   TaskPool           taskpool.go, `NewTask` and `DeleteUnsafe`
--   Worker             worker.go: `start` is `run` up to its loop, `Worker.Steps` the loop
--   Pool               pool.go: `Start` for the beginnings and the end of a run, `Shutdown` for `Stop`,
--                      `Online` for the workers of an online run by turns, `Online.Events` for
--                      `RunOnline` as a whole, `Background` for the loop of `RunBG`
--   PoolService        workerpool_service.go: `Group` sends a group of tasks, `Counter` counts its ends
--   FactorialHandler   handler_wp.go: `calculateFactorialFn`, `calculateFactorialOnline` and the sum
--   AppConfig          pkg/app/config/config.go: `Load` is `LoadYamlConfig`
--   HttpAuth           pkg/common/jwt/jwt.go, and `Handlers` pkg/common/httpservice/handler_auth.go
--   BytesPool          bytespool.go
--   HttpService        httpservice.go: `Process` is `Process`, with `processError`, `substrRune` and
--                      `recoverWrap` in `Errors` and `Text`; `Config` for the registration of
--                      handlers, `Handlers` for handler_log.go, handler_echo.go and
--                      handler_logger_*.go
--   HttpLog            pkg/common/httplog/httplog.go
--   HttpClient         pkg/common/httpclient/httpclient.go: `process` is `Process`
--   Logger             pkg/common/logger/logger.go: the settings, the targets and what is written
--   Database           pkg/common/sqlxx/sqlxx.go: `Statements` for the cache of prepared statements,
--                      `Commands` for transactions and queries
--   HttpHandler        pkg/app/httphandler: `New`, `HealthHandler` and `ReadyHandler`
--   HttpServer         pkg/common/httpserver/httpserver.go
--   Daemon             pkg/app/daemon/daemon.go: `Create` for `New`, `run` and `shutdown`
--   Examples           concrete inputs for the theorems
--
-- How state is read. A statement returns, panics or blocks, and leaves a state (GoRuntime/Control). A
-- blocked statement stands for a goroutine that waits.
-- Shared objects are numbers into a heap: tasks in `Shared.tasks`, outside channels and wait groups
-- in `World`. What the scheduler, the clock and other goroutines decide is an argument: the events
-- before a `select` and the case that it takes (`Env`), the choices of a worker's step (`Choice`), the
-- looks of a waiting loop (`Poll`), the turns of the workers, the parent context and the calls of
-- `Stop` beside an online run (`OnlineEvent`), and the turns of the daemon (`Turn`).
--
-- Grain. A worker is interrupted between the steps of `Worker.Steps`, and a call of `process` is one
-- step, into which `Env` brings what happens meanwhile. `AddTask` and `Stop` are atomic, but for the
-- gap between the check and the send in `send_task`. The lock of a worker that runs is `locked`.
-- The handler of a task is a function: it comes back or panics, so that a handler that never ends is
-- not a short task here; that of a long task need not end before `process` does. A panic of a goroutine
-- beside `process`, which a late handler or a second `Stop` makes, ends the program (`ends_program`):
-- `happen` is the task in a program that goes on, and theorems on long tasks suppose one.
-- `WriteHeader` of net/http accepts the statuses from 100 to 999 and panics at others (`send_status`).
--
-- Fuel. Only the loop of a factorial runs on fuel: a number below 2 ^ 64 - 1 needs more than that
-- number of rounds, which `calculate_factorial_fn-factorial` asks for. The other loops go over lists;
-- the rounds of the HTTP client are the list of the outcomes of its calls.
-- Counters and factors of 64 bits keep their wrap-around; durations and sizes are not bounded.
--
-- Not modelled: the text of errors and of log messages, and the metrics; the lines of `Process` that
-- call the traffic log; contexts, but for whether they are closed; the recoveries of `RunOnline` and `RunBG`;
-- settings of the connections of the client, the database and the server; and cmd/app/main.go, which
-- reads the flags and starts the daemon. lib/metrics-server is a copy of another project's library.
--
-- Parameters. The file system and the decoder of `LoadYamlConfig`, the token library and the
-- directory server, `fmt.Sprintf` on the formats of messages, the driver of the database, the
-- printing of requests by the HTTP library, and the levels of the logging library. `ReadsItsTokens`
-- is what the token library promises: a token that it signed is valid until its expiry time, and
-- refused behind it.
pub mod Base
pub mod GoRuntime
pub mod Errors
pub mod Task
pub mod TaskPool
pub mod Worker
pub mod Pool
pub mod PoolService
pub mod FactorialHandler
pub mod AppConfig
pub mod HttpAuth
pub mod Database
pub mod BytesPool
pub mod HttpLog
pub mod HttpService
pub mod HttpClient
pub mod Logger
pub mod HttpHandler
pub mod HttpServer
pub mod Daemon
pub mod Examples
