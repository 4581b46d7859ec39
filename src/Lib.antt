-- ===== src/Lib.antt =====
-- Verification library of GatePup, a reverse proxy.
--
-- The command line (`main`) resolves and validates a configuration, and starts the servers with it. A
-- listener accepts connections, and hands each of their requests to `handle`, which finds the host and
-- the address of the client, and picks one of two paths: `forward`, or `handle_upgrade` for a protocol
-- upgrade. Both run the same admission: the route of the listener, the access list, the rate limiter,
-- the credentials, the upstream. Then a target is picked from the weighted schedule, the request goes
-- out with rewritten headers, the outcome is fed into the target's health, and the retry policy says
-- whether there is another attempt. Active probes feed the same health. What all of this works on, the
-- snapshot, is built from the configuration and replaced as a whole by a reload: on a signal the
-- application resolves and validates a configuration and swaps the snapshot in, or keeps the one that
-- runs. The admin API reads the snapshot and the metrics. A shutdown drains the listeners.
--
-- The files, and what they model:
--   Prelude, with Tests, Lists, Texts, Bits, Tables: numbers, lists, texts and maps. A text is the list
--     of its bytes, a map an association list.
--   Interfaces: packages that the code calls, as records of operations, with their documented laws:
--     addresses and networks (std::net, ipnet), headers (http), floating point. Interfaces.Assoc and
--     Interfaces.Bytes are small implementations of these, and `whole` is one of the floats.
--   Config.Model: crates/gatepup-config/src/model.rs, record by record. Config.Errors and
--     Config.Validator: error.rs and validator.rs beside it; Routes has `check_listeners` and
--     `validate`, Checked and Sound what a valid configuration guarantees.
--     Config.Resolve: resolve.rs and loader.rs beside them; Precedence.
--   Cli: the subcommands of crates/gatepup-cli/src/main.rs and their exit codes.
--   Core: crates/gatepup-core/src/app.rs and error.rs: `load_validated`, `print_config`, `serve` up
--     to the wait for its servers, `reload` and the signal loop. Reload, Signals, SetUp and Start have their
--     theorems.
--   Admin: the routing and the token of crates/gatepup-admin/src/api.rs; Documents what its endpoints
--     read, and the scrape of the gauge; Serve the accept loop of lib.rs beside it.
--   Metrics: crates/gatepup-observability/src/metrics.rs; Counts.
--   Health: crates/gatepup-proxy/src/health.rs, `HealthState` and `observe`. Invariant says what holds
--     between observations, History describes a whole history.
--   Probes: the active probes of the same file. Recovery is about what they do to an upstream;
--     Supervisor is `run_health_supervisor` as a step relation, with Newest and Invariant.
--   Schedule: `gcd` and `build_schedule` of crates/gatepup-proxy/src/snapshot.rs; Gcd, Rounds and
--     Weights lead to the shares of the targets.
--   Upstream: `UpstreamRuntime` and `pick_target` of the same file; Cycle, Pick and Fair, and Keeps for
--     what the operations leave alone. Shared is `pick_target` beside other requests; Sound and Misses.
--   Snapshot: `RuntimeConfig`, `RetryPolicy::from_config`, `build_snapshot` and
--     `build_reload_snapshot` of the same file; Build has what a snapshot promises. Views are what the
--     admin API and the metrics read of a snapshot; Order and Counts.
--   Router: crates/gatepup-proxy/src/router.rs. Host is `HostMatch`, Table `CompiledRoute` and
--     `Router::build`, Select `Router::match_route`, Rewrite `rewritten_path_and_query`, Filters the
--     access lists, rates and header operations, with `parse_trusted_proxy` of
--     crates/gatepup-config/src/validator.rs.
--   Tls: crates/gatepup-proxy/src/tls.rs, the acceptor of a listener from its files; Material and Secured.
--   RateLimiter: crates/gatepup-proxy/src/rate_limit.rs; Shard, Burst and Evict.
--   Compress: crates/gatepup-proxy/src/compress.rs; Negotiation.
--   Proxy: crates/gatepup-proxy/src/proxy.rs. Errors is `GatewayError` and `error_response`, ClientIp
--     `resolve_client_ip`, with Chain for proxies in a row, Host `request_host`, Auth `basic_auth_ok`,
--     with Credentials, Forwarding the headers of the upstream request, Body the sources of a body,
--     Admission the checks at the head of `forward`, Attempts its loop, with Retries, Trace and Served,
--     Client the clients of the upstreams, Forward the whole of it, with Guarded and Verified, Handle
--     `handle` and `handle_upgrade`, with Accounts, Guarded and Stripped, RequestId the ids that the
--     proxy makes up. Handle.Example is a small proxy.
--   Server: crates/gatepup-proxy/src/server.rs. Bind is about the start of the listeners, Lifecycle an
--     accept loop and its connections as a step relation, with Invariant, Safety and Drain.
--   Service: requests, passes of probes and reloads in any order; Valid, Forwarded, Upgraded, Answered, and
--     Oversized for bodies that do not fit the buffer for retries. Service.Example is a small proxy.
--   Traffic: many requests at once, each as its actions on what they share. Run puts them beside probes,
--     reloads and clients that leave, as a step relation. Heap, Tunnels, Flights, Staged and Acts lead to
--     the invariant of a request, Invariant to that of the whole, and Answers says what clients rely
--     on. Budget and Ends bound the actions of a request. Alone compares a request that nothing
--     interrupts with the one step of Proxy.Handle: Picks, Loop, Whole,
--     Forward, Written, Upgrade, Handle.
--   The modules called Tests hold runs of the definitions and the theorems at concrete values.
--
-- How state is modelled. A method that changes a value returns the changed value. `World` is what one
-- request can change: the upstreams of the snapshot, whose counters and health are atomics in the
-- code, the rate limiter and the metrics; its log of requests that went out is no variable of the
-- code, and lets theorems speak of them. What the network answers, the clock, hashing, base64 and the
-- encoders are arguments, and so is which address can be bound beside those that the process has
-- bound. An early return with an error is a value of the error's type.
--
-- Concurrency. Tasks that wait for each other are step relations: the supervisor of the probes
-- beside the reloads, where a watch channel is a flag that says whether a change is unseen, and a
-- listener, or the admin server, beside its connections, with a clock and the time at which each
-- timer began. In all, the steps come in any order, and theorems speak of every state that can be
-- reached. In Service a request is one step from its arrival to its answer, and Upstream.Shared lets
-- other tasks act between any two reads of one pick. In Traffic a request is cut into its actions: the
-- admission, each `fetch_add` of the counter, each load of a target's health, the outcome of each
-- upstream request with its observation. A request keeps the snapshot that it loaded, by its place
-- in a heap to which a reload adds, and its future can be dropped between any two actions. The rate
-- limiter checks under a lock, and a check is part of one action.
--
-- Machine integers. Counters that can wrap have their wrap-around written out: `fetch_add` on 32 and 64
-- bits, the sums of the schedule, the bytes that a capped body has seen. Other arithmetic stays within
-- its type for the values the program meets.
--
-- Fuel and termination. `rounds`, the loop of `build_schedule`, has one more unit of fuel than the
-- total that it runs to, and each round adds a slot, so it is never spent. `gcd` recurses on the
-- accessibility of its second argument. `hex` has fuel for the 32 digits of 128 bits, or the 16 of 64. The
-- loops over slots and attempts count down. Loops that run
-- until an event (the probes of an upstream, the signals) are recursion on the list of the events.
--
-- Not modelled: the system's files, the parsers of JSON and of certificates, the client for TLS
-- (upstream_tls.rs), the HTTP of a connection and the relay of bytes behind an upgrade, the wait
-- for the two servers once they run, the text of the JSON and metrics documents, logging, the parsing of arguments,
-- and the test server of the benchmarks: input and output, and calls of other packages.
mod Prelude
pub mod Interfaces
pub mod Config
pub mod Health
pub mod Schedule
pub mod Upstream
pub mod Router
pub mod RateLimiter
pub mod Compress
pub mod Metrics
pub mod Snapshot
pub mod Tls
pub mod Probes
pub mod Proxy
pub mod Server
pub mod Admin
pub mod Core
pub mod Cli
pub mod Service
pub mod Traffic
