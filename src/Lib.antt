-- ===== src/Lib.antt =====
-- ctwatch follows Certificate Transparency logs, stores the precertificates it finds, reports those
-- that match a watchlist, and streams all of them to subscribers. This library models the parts of
-- it that carry its logic, and states what they promise.
--
-- The parts, and the files that model them (paths from the root of the repository):
--   src/ingest/entry.rs            Ingest/Entry: the decoder of log entries over bytes. Ingest/Entry/Reader
--                                  is its reader, Ingest/Entry/Encode the RFC 6962 format as an encoder.
--   src/ingest/log_list.rs         Ingest/LogList: the list of logs, and the operator filter.
--   src/ingest/client.rs           Ingest/Client: `get_sth` and `get_entries`.
--   src/ingest/worker.rs           Ingest/Worker: `tick`, `run`, `spawn`, one worker for each log.
--   src/ingest/backfill_worker.rs  Ingest/Backfill: `run_for_log`, its binary search and its walk.
--                                  Ingest/Backfill/Tasks is `run_many`.
--   src/parse/                     Parse: names of certificates, registered domains.
--   src/watchlist/                 Watchlist: Matcher is the set in memory, Sources loads it from a file, a
--                                  URL or the table.
--   src/store/                     Store: Db has the tables, and one file for each module of queries.
--   src/writer.rs                  Writer: Job is the channel, Prepare makes rows and events of jobs,
--                                  Flush is `flush_batch` with one turn of the loop, Loop the loop.
--   src/webhook.rs                 Webhook: one poll, and the retries.
--   src/stream/                    Stream: Event has the types, Handler is one subscriber, Handler/Limit the
--                                  sockets that open and close, Handler/Race their steps interleaved.
--   src/stats/                     Stats: counters and ring buffers; Snapshot is the JSON of the statistics.
--   src/api/                       Api: errors and handlers. Lookup, Certs, Watchlist and Admin are the files
--                                  of those names; Status is health.rs, logs.rs and stats.rs, and Router
--                                  mod.rs with metrics.rs and stream.rs.
--   src/config.rs                  Config: the settings with their defaults, and the parser of durations.
--   src/cmd/                       Cmd: Serve is what the process starts and its periodic tasks, Backfill
--                                  the choice of logs, with Healthcheck and Migrate.
--
-- A worker asks its log for the head of the tree and for entries, decodes them, and sends jobs into a
-- channel; the writer takes them in batches, inserts certificates, counts, enqueues webhook messages
-- and broadcasts events; the webhook task delivers what is due. `serve` starts these tasks for a
-- configuration, and a worker for each new log every six hours; the handlers of the API read and
-- change the same tables. Pipeline puts a worker and the writer together: what the one sends is what
-- arrives at the turns of the other; Alerting puts the writer and the webhook task together. In
-- Pipeline the worker and the writer have tables of their own, since the worker uses only the cursors
-- and the writer never does. Each function of the source is a definition of the same name; a part of a
-- function that is a step of its own has a name of its own.
--
-- State is passed on: `Exec S A` (Base/Exec) takes a state and gives a result with the state left
-- behind, also after an error. The database is a record of tables with a list of answers: for each
-- statement to come, whether the server executes it. A property that holds for every database holds
-- for any statement that fails, also one that the server refuses for its parameters, such as a text with
-- a NUL or a time out of its range. The network is a value for each round: what a server answers to each
-- URL. The tasks that share the database and the counters are modelled one at a time, also those of
-- several statements without a transaction, such as GET /v1/stats; but for the sockets of
-- Stream/Handler/Race and the tasks of Ingest/Backfill/Tasks, whose steps interleave.
--
-- Numbers are natural numbers; u64 and i64 arithmetic wraps as in the release build (Base/Int). Texts are
-- lists of bytes or of code points. Times are nanoseconds. A loop that need not end runs for as many
-- rounds as there are servers or occurrences. The binary search runs on fuel, the size of the tree less
-- one; each step at least halves the interval, so that this is enough.
--
-- Crates and services are parameters: the X.509 parser, SHA-256, HMAC, UUIDs, the public suffix list,
-- serde_json, serde_yaml, figment, hex, base64, chrono's `from_timestamp`, SQL's LIKE, HTTP.
--
-- JSON that is sent is a record with the fields of the object, without its encoding. A handler is a
-- function of the database; its status is part of what it gives. Store/Reads is the interface between
-- the statements that only read and their callers, and Api/Watchlist/Spec the set of domains that the
-- watchlist's routes promise.
--
-- Not modelled: the matching of paths and the extraction of parameters (axum), the rendering of metrics
-- and the logging (libraries), how the tasks of `run_many` interleave inside one `run_for_log`, what the
-- migrations do, the connection pool, and the panic of chrono where a retention reaches back before the
-- first year that it can hold.
pub mod Base
pub mod Parse
pub mod Watchlist
pub mod Stream
pub mod Store
pub mod Writer
pub mod Ingest
pub mod Api
pub mod Config
pub mod Cmd
pub mod Stats
pub mod Webhook
pub mod Pipeline
pub mod Alerting
pub mod Examples
