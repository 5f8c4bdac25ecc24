-- ===== src/Lib.antt =====
-- go-dota2: workers that fetch and parse matches, fed by queues, through a pool of proxies.
--
-- What stands here models internal/queue (the queues), internal/payload and
-- internal/dedup (what the stages share), internal/proxy (the pools of proxies, their loader and the
-- client), internal/worker (discovery, the loop that serves a queue, its circuit breaker and
-- backpressure, and the stages), internal/enrich (the runner of the sources of reference data), and
-- the commands cmd/migrator and cmd/dlq. Discovery pushes the ids of matches to the first queue; the
-- fetcher reads them from it, fetches through the client, stores the payload and pushes to the
-- second queue; the parser reads from that, and hands the match to the ingester.
--
--   Base        tests, lists, maps and integers that the others share
--   Json        encoding/json, as far as the program uses it
--   Queue       internal/queue/queue.go: tasks, RetryPolicy
--   Queue.Inmem internal/queue/inmem/queue.go, one function per method; Pop's loop runs over a
--               schedule of what happens at each poll, and a theorem says that it ends once the
--               deadline comes up in it
--   Queue.Redisstreams
--               internal/queue/redisstreams/queue.go: the codec of messages and of delayed tasks;
--               Queue.Redisstreams.Store has the operations, over Redis as a parameter whose
--               commands fail or lead to a new store
--   Payload     internal/payload/store.go, and internal/payload/inmem/store.go in Payload.Inmem
--   Dedup       internal/dedup/seen.go, and internal/dedup/inmem/seen.go in Dedup.Inmem
--               internal/dedup/redisseen/seen.go in Dedup.Redisseen
--   Metrics     internal/metrics/inmem/sink.go, whose calls are sequences of atomic steps
--   Worker.Runner, Worker.Backpressure, Worker.Breaker
--               internal/worker/runner.go: Run, adjustForBackpressure and CircuitBreaker
--   Worker.Stale
--               internal/worker/runner.go: a tick of staleRecoveryLoop, and withRetryCount
--   Worker.Tasks, Worker.Fetcher
--               internal/worker/fetcher/fetcher.go: Process, over the store and the next queue
--   Worker.Ingester
--               internal/worker/ingester: Ingest, and the ingester behind a circuit breaker
--   Worker.Parser
--               internal/worker/parser/parser.go: Process; its children model decode.go: the raw
--               structs and json.Unmarshal into them, the conversions, the time series, validate
--   Worker.Discovery
--               internal/worker/discovery/cycle.go: the generic cycle; jitter of scheduler.go; the
--               cycle of the matches, matches/cycle.go, in Worker.Discovery.Matches; LoadQueries of loader.go
--               stands in Worker.Discovery.Queries
--   Storage.Matchstore
--               internal/storage/matchstore/match.go: the rows of a match
--   Proxy.Inmem internal/proxy/inmem/pool.go, with the lease of internal/proxy/pool.go
--   Proxy.Redisproxy
--               internal/proxy/redisproxy/pool.go, with internal/proxy/policy.go and the scripts
--               under internal/proxy/redisproxy/lua, over Redis as a parameter, whose laws are those
--               that Redis documents of its sorted sets (Proxy.Redisproxy.Laws)
--   Proxy.Loader
--               internal/proxy/loader/loader.go: Run, with its chunks and the remote list; the clock
--               of cmd/proxyloader/main.go
--   Proxy.Httpdo
--               internal/proxy/httpdo/doer.go: Do, over any pool; its loop makes at most
--               MaxRetries attempts, each with what the network does in it; the cache of transports
--               stands in Proxy.Httpdo.Cache
--   Enrich.Sorting, Enrich.Runner
--               internal/enrich/runner.go: sortByDependencies, NewRunner, Run and runOne
--   Enrich.Gate internal/enrich/gate/gate.go
--   Command.Migrator
--               cmd/migrator/main.go: the migrations of a directory, and the loop that applies them;
--               which directory that is stands in Command.Migrator.Directory
--   Command.Dlq cmd/dlq/main.go: replay and purge
--   Config      internal/config/config.go: the readers of environment variables
--
-- The search of sortByDependencies runs on fuel, one more than there are sources: the stack holds
-- distinct names of sources, so that it never runs out, which its theorem says.
--
-- A method that holds a mutex is one step on the state. The loop of a worker is parametrised by
-- the operations of its queue (Queue.QueueOps), and proved correct over the in-memory queue.
-- Durations and counts are natural numbers where the code treats all that is not positive alike.
--
-- json.Unmarshal is modelled on documents as they are parsed (Json), with the ranges of the integer
-- types; a float32 stands for the number that it is read from. A document that goes through a
-- value of type `any` has its numbers rounded to float64 (Json.Floats), and a Go string in a document
-- loses the bytes that are no UTF-8.
--
-- Not modelled: the SQL of the repositories, the HTTP transport, the sources of the loader and its
-- probe (requests of net/http), the downloads of internal/enrich/sources, the store of payloads in
-- Redis (single commands), the metrics of OpenTelemetry, the table of the configuration's names and
-- defaults, the other commands (wiring), and what only logs.
pub mod Base
pub mod Json
pub mod Queue
pub mod Payload
pub mod Dedup
pub mod Proxy
pub mod Worker
pub mod Command
pub mod Config
pub mod Enrich
pub mod Metrics
pub mod Storage
