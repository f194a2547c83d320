-- ===== src/Lib.antt =====
-- lwd_mixnet_proxy carries the connections of a light wallet over a mixnet. A client half takes a
-- wallet's connection, opens streams through the mixnet until one is shown to work, and splices the
-- two. A server half takes the streams in, waits for a first request and splices each with the node
-- upstream. Here the program's own logic is a library of definitions, one module for each of its
-- parts, with what is known of them.
--
-- The parts and their files, named from the repository's root:
--   Handshake  src/handshake.rs: the 14-byte header, its tokens, `probe`, `announce`, `accept`.
--   Dial       src/dial.rs: rounds of streams opened together, and `dial`, which spends a budget of
--              attempts on them. Dial/Run has the code; Rounds, Accounting, Budget and
--              Tokens count it.
--   Splice     src/splice.rs: the deadlines of a `Watchdog`. Splice/Loop has `pump` and `splice`,
--              Splice/Polls has them once more, poll by poll.
--   Health     src/health.rs: how far a half has come and whether it is degraded.
--   Streaks    src/streaks.rs: what consecutive dials say about the client and about the far side.
--   Metrics    src/metrics.rs: what each half counts. Metrics/Totals sums it up,
--              Metrics/Interleaved over calls in another order,
--              Metrics/Registration has the constructors of both halves.
--   Endpoint   src/endpoint.rs: the answers to `/metrics` and `/health`, and in Endpoint/Serving the
--              loop that takes connections in.
--   Shutdown   src/shutdown.rs: the signals that ask a half to stop.
--   Half       what the two programs share in starting up and ending: src/bin/client.rs and
--              src/bin/server.rs. Half/Lifecycle is the abstract machine that a supervisor sees,
--              Half/Rules has what each step of a startup leaves.
--   Client     src/bin/client.rs: `carry`, which joins Dial, Streaks, Splice and Metrics for one
--              connection, in Client/Tasks for many beside each other, with the program's end in
--              Client/Tasks/Ending, and in Client/Serving the loop of `main` with `drain`.
--              Client/Startup has the arguments and `main` up to its loop, Client/Startup/Life
--              `main` as a whole.
--   Server     src/bin/server.rs: `serve`, which joins Handshake, Splice and Metrics for one stream,
--              in Server/Tasks as the tasks of many streams beside each other, and in Server/Capacity
--              the loop of `main` with its cap. Server/Startup has the arguments, `connect` and
--              `main` up to its loop, Server/Startup/Life `drain` and `main` as a whole.
--   Journey    both halves at the two ends of one stream.
--   Bench      src/bin/bench.rs: a measurement of the dial. Bench/Trials is the run; Bench/Rates,
--              Bench/Spread and Bench/Percentiles are the numbers reported of it, Bench/Report is
--              the report, line by line, and Bench/Main is `main` with all that it prints.
--   Common     shared names, tests, lists, words of a fixed width, results and their bind.
--   Examples   runs on a concrete stream, client and server.
-- Functions, types and fields keep the names of the source. A parent's name stands for the code
-- itself, the modules below it for what is known about that code.
--
-- What the program takes from tokio, the mixnet SDK, futures and prometheus is a parameter, a record
-- of operations with the documented behaviour that the code relies on as its laws:
--   Io         a stream's reads, writes, flushes and clock. A successful `read_exact` fills the
--              buffer with bytes.
--   Network    the SDK client, the streams it opens and the time that passes for each of them.
--              `FuturesUnordered` hands back every future once, in the order in which they finish.
--   Upstream   the node's connection and the first read from a stream.
--   Semaphore  permits that are taken without waiting and given back.
--   Surroundings  what startup asks of the SDK and of tokio: reading an address, binding a listener,
--              storage, connecting, a timeout. One record for each half; no law is needed of them.
--   Nearest    the product of a length and a fraction, rounded, which is floating point.
--   Prometheus making metrics of a description and registering them under a fresh name.
-- `Examples` fills each of them with concrete functions. What a method counts is its value, the list
-- of its `Call`s on prometheus.
--
-- Conventions. Durations are nanoseconds; the splice's own times are milliseconds since it began, as
-- in the source. Counters of a fixed width wrap around, `% 2 ^ w`, and `-` stops at 0 as the source's
-- saturating subtractions do. Tokens are drawn from one process-wide counter, in the order in which
-- the code draws them. The probes of one round run beside each other, each on its own stream, and are
-- looked at in the order in which they finish. The loops over `select!` read a list of what becomes
-- ready, with its time: every interleaving of the two pumps and the checks is one such list. In
-- Splice/Loop one pass of a pump, a read with its write and flush, is one entry, where the pass ends;
-- in Splice/Polls each poll of a pump is one, and tokio's `write_all` is over when its writer
-- has taken the whole chunk or failed. Connections that are carried, and streams that are served,
-- beside each other are tasks, of which any may take the next step: one call on a metric, one
-- fold, the end of what it awaits, or being aborted where it awaits.
--
-- Fuel. `dial_loop` runs on as many rounds as there are attempts, which is enough since a round attempts
-- at least one stream. All other loops are by recursion on
-- the list or the number they go through.
--
-- Not modelled: how the command line is parsed (an argument is given its value, or its default),
-- tracing, what the SDK does to connect and to store an identity, HTTP itself, and how numbers and
-- quotients print, in columns of what width. The lifecycle of a half follows its state and not its degraded flag, which
-- connections set while it is serving, and no connection to the endpoint that outlives the shutdown.
pub mod Common
pub mod Handshake
pub mod Dial
pub mod Splice
pub mod Health
pub mod Metrics
pub mod Streaks
pub mod Endpoint
pub mod Shutdown
pub mod Half
pub mod Client
pub mod Server
pub mod Journey
pub mod Bench
pub mod Examples
