-- ===== src/Lib.antt =====
-- Scorpion, a gateway that delivers the events of each client over server-sent events (SSE): the
-- model of its program, and what is proved of it.
--
-- The program. A producer inserts an event into the queue of a client (POST /v1/events/:client_id).
-- A client exchanges its bearer token for a ticket (POST /v1/auth/ticket), within a rate limit for its
-- address, and opens a stream with the ticket (GET /v1/stream/events). The stream drains the queue on
-- connect and at each poll, writes one frame for an event, and registers it as in flight. The client
-- acknowledges an event (POST /v1/ack): the acknowledgement is published to NATS, and the event is
-- marked. All state that is shared by requests and instances is in Redis.
--
-- The files, with the code that they model:
-- - Config: internal/config/config.go, the settings, and Config/Load (`Load`). Domain: internal/domain.
-- - Metrics: the updates of internal/metrics/metrics.go, and Metrics/Register (`NewMetrics`).
-- - Log and Telemetry: internal/log/log.go (`NewLogger`) and internal/telemetry/tracer.go.
-- - Redis: the commands of Redis, a parameter with the documented effect of each on a keyspace;
--   Redis/Keyspace and Redis/Ranges have the laws that the proofs use, and Redis/Memory is a keyspace
--   in memory that meets all of them.
-- - World: Redis behind a network. A command, a pipeline or a script is one round trip, which is
--   answered, or breaks after some of its commands have run. World/Confined is on the keys that the
--   requests of one stream may change, World/Typed on the kind of value that a key holds, and
--   World/Aged on the passing of time.
-- - Json: the JSON libraries, a parameter.
-- - Repository: internal/repository. Events (`Push`, `Drain`), Tickets (`Store`,
--   `ValidateAndConsume`), Connections (`Register`, `Refresh`, `Delete`, `DeleteWithValue`,
--   `CleanupInstance`), InFlight (`Register`, `Validate`, `MarkAcked`) and Keys, each with modules of
--   proofs below it, and Stores, the interfaces and their constructors. The Lua scripts are functions
--   of the keyspace. Events/Runs and Events/Fifo are on sequences of requests for many clients, and
--   Connections/Streams is the step relation of the streams of all instances. Commands is the program
--   as Redis sees it: the commands of all operations, one at a time, in whatever order requests that are
--   served together send them, with the operations as sequences of commands in Sent, the keyspaces
--   that permitted commands lead to in Reached, and what is counted of registrations in Registrations.
-- - RateLimit: internal/ratelimit/limiter.go (`Allow`, whose sums wrap at 64 bits), with Windows, the
--   abstract limiter, and Overflow, on the limit without bound.
-- - Auth: internal/auth/jwt.go. The library golang-jwt is a parameter.
-- - Stream: internal/stream. Breaker (`circuitBreaker`), Frame (`writeSSEEvent`), Session (the
--   connection that is written to), Drain (`drainAndFlush`) and Loop (`RunLoop`, `sendHeartbeat`).
-- - Ack: internal/ack. JetStream is a parameter.
-- - Http: internal/http. Middleware, one module below Handlers for each handler, and Server with the
--   routes, the exchange of a ticket over two of them, Build (the servers of
--   `NewServer`), Life (`Serve`, `Shutdown`), Delivery (an event from its insertion to its
--   acknowledgement), and Requests: all routes as one function, which commands each of them may send
--   (Permits), and any history of requests to any number of instances.
-- - App: internal/app. Ip (`NewIPStrategy`) and Clients (`NewClient`, `WithNats`, `WithRepository`).
-- - Cmd: cmd/scorpion, start.go (`runStart`) and root.go (`Execute`).
-- - Scripts: scripts/push_events.go and scripts/token.go.
-- - Prelude: shared names and lemmas on numbers, lists, options and texts. Tests modules hold concrete
--   runs; Auth/Fixture is a signature scheme that knows one ticket, Ack/Fixture is JetStream in
--   memory, and Http/Fixture has settings, requests and an encoding for them.
--
-- Conventions. A Go function that returns an error returns a `Result` here. The time, a new uuid and
-- what a `select` takes are arguments. Times to live are whole seconds, the breaker's times are
-- nanoseconds. Integers have no bound, but for the breaker's
-- counter of 32 bits and the limiter's sums of 64 bits. No function runs on
-- fuel: `RunLoop` is a function of the list of signals that it takes, and a scan of the list of its
-- pages, so every theorem on them is for any number of turns.
--
-- The requests of one handler run while Redis's clock stands still; time passes between the requests of a
-- history, and between commands in Repository/Commands. The intervals of a stream are taken to be
-- positive, as `time.NewTicker` asks. A list of signals that holds none that ends the loop stands for a
-- stream that ends after the last of them: its handler still runs the deferred `Delete`.
--
-- Not modelled: that go-redis sends a request again, up to max_retries times, whose connection broke: here
-- it is sent once, so a push or a count that runs twice is not seen, but in Repository/Commands, where it
-- is one command more; the lines that handlers and stores write to the log, their spans and the observations
-- of the latency hook; response headers and write deadlines; listening and TLS; help texts and
-- buckets of metrics; cobra's command line; end-to-end tests. Third-party code is
-- a parameter wherever a model calls it. `runStart` takes what happens until the signal as one function of the
-- parts that the handlers are given.
pub mod Prelude
pub mod Redis
pub mod Metrics
pub mod World
pub mod Config
pub mod Domain
pub mod RateLimit
pub mod Auth
pub mod Json
pub mod Stream
pub mod Ack
pub mod Repository
pub mod Http
pub mod App
pub mod Log
pub mod Telemetry
pub mod Cmd
pub mod Scripts
