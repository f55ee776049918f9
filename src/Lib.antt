-- ===== src/Lib.antt =====
-- Verification of Unleash Edge, the proxy between Unleash and its SDKs.
--
-- Edge keeps, for each environment, the features that upstream Unleash serves. A client's token is read
-- and validated against upstream (server/src/tokens.rs, server/src/auth/token_validator.rs), registered
-- with the refresher (server/src/http/refresher), which fetches features with the least set of tokens
-- that covers all of them, merges the answers into the cache (server/src/feature_cache.rs) and compiles
-- them into engines. A request then gets the part of the cache that its token and its query may see
-- (server/src/filters.rs, server/src/client_api.rs), or its toggles evaluated by the engine
-- (server/src/frontend_api.rs), if server/src/middleware lets it through. Each change of the cache is sent to
-- the clients of the streaming endpoint (server/src/http/broadcaster.rs). The counts of use that clients post
-- are kept and sent upstream (server/src/metrics). What upstream answers is read by
-- server/src/http/unleash_client.rs; a backup (server/src/persistence) takes tokens and features over to the
-- next process.
--
-- The files:
--   Prelude, Dict, Text      lists, options, equality tests; DashMap and HashMap as association lists
--                            in the order of an iteration; the string methods that the code uses.
--   Panics                   steps that may panic, in a row.
--   Dict/Laws, Dict/Unique   what a lookup gives after each operation, and tables with each key once.
--   Error, Error/Responses   server/src/error.rs: the errors and their HTTP status; their texts, and the answers.
--   Urls, Urls/Paths         server/src/urls.rs: the addresses of upstream.
--   Cli, Headers, RedisUrl   server/src/cli.rs: the URL of Redis, custom headers and trusted proxies; the choice
--                            of a backup, `get_data_source` of server/src/builder.rs.
--   Types, Types/Schedule    server/src/types.rs: tokens, refresh records, the times of the next fetch.
--   Tokens and its children  server/src/tokens.rs: `from_trimmed_str`, `subsumes`, `simplify`, `anonymize_token`;
--                            Request has the token of an HTTP request, Issued how tokens are printed and those
--                            that are made without reading one (server/src/types.rs).
--   Features, Features/Sort  the crates unleash_types and unleash_yggdrasil, as parameters; `sort`.
--   Filters, Filters/Access  server/src/filters.rs, and `get_feature_filter` of server/src/client_api.rs.
--   FeatureCache, its children  server/src/feature_cache.rs: one function per method, over the table and
--                            the updates sent.
--   UnleashClient, Answers   server/src/http/unleash_client.rs: each call as a function of the outcome of
--                            its request; Requests and Sent have the requests, Connecting the HTTP client with
--                            the files of its identity (and server/src/tls.rs).
--   TokenValidator, its children  server/src/auth/token_validator.rs: each method as a function from
--                            the validator to the validator and a result.
--   Refresher/State, Fetch, Serve  server/src/http/refresher: `FeatureRefresher` as a record, and each
--                            method as a function on it; Engines, Answers, Coverage and Decisions have
--                            the proofs.
--   Refresher/Streaming      server/src/http/refresher/feature_refresher.rs: the features that upstream streams;
--                            Opened has the opening of the streams.
--   Metrics/Data, Cache, Batches  server/src/metrics/client_metrics.rs: the keys with their hourly bins,
--                            what is put into the cache, and what is taken out of it; Totals, Variants,
--                            Indexed, Removal, Reinsert, Cutting, Groups, Distinct, Round and
--                            Conserved have the proofs.
--   Metrics/Sender, Backoff  server/src/http/background_send_metrics.rs: a turn of `send_metrics_task`.
--   ClientApi, Shown, Handlers  server/src/client_api.rs: the handlers, in either mode.
--   Contexts, Contexts/Precedence  server/src/types.rs: what a frontend request says of its user.
--   FrontendApi, Listed, Single, Handlers  server/src/frontend_api.rs: the lists of evaluated toggles, a
--                            single toggle, and the endpoints of both scopes.
--   Broadcaster, its children  server/src/http/broadcaster.rs: the groups of clients and what is sent to
--                            them; Refined has the specification, over bags of subscribers, and Served what
--                            each of them is to get.
--   Persistence, its children  server/src/persistence: the interface of a backup and the turn of saving; File,
--                            Redis and S3 fill it; Durable, Failures and Restart have the proofs.
--   Backstage, its children  server/src/internal_backstage.rs, server/src/health_checker.rs and
--                            server/src/ready_checker.rs.
--   Middleware, Middleware/Admission  server/src/middleware: who is let through.
--   EdgeApi, EdgeApi/Validated  server/src/edge_api.rs.
--   Builder, Offline, Started  server/src/builder.rs and server/src/offline/offline_hotload.rs: the caches
--                            at the start in either mode; Bootstrap reads the features of offline mode.
--   Examples                 concrete inputs.
--
-- Conventions. A method that changes shared state takes the state and returns it. What a call of
-- upstream returns, and the clock, are arguments: `Upstream` says how each request ends. A panic is
-- `none`. Times and durations are milliseconds. `u32` and `i32` arithmetic is written out; the loops are
-- over lists, so that no fuel is needed. A table has one order of iteration, that of its list; two
-- concurrent requests are two calls in a row.
--
-- The clients of JSON, of a file system, of Redis and of S3 take their answers as parameters; a backup that
-- keeps what it is given is a record of laws, which each of the three is shown to fulfil.
--
-- The url crate, the HTTP and TLS libraries and the readers of JSON and of addresses are parameters too; the
-- laws that a theorem asks of them are records beside it.
--
-- Not modelled: what clap reads of the command line, the sending of a request, the TLS configuration of the
-- server, the text of JSON, logging, Prometheus counters, the list of documented endpoints, the start of the
-- HTTP server, and the scheduling loops that only wait and call a modelled operation. Of unleash_types and
-- unleash_yggdrasil only what the code uses is assumed, as arguments.
pub mod Prelude
pub mod Dict
pub mod Panics
pub mod Text
pub mod Error
pub mod Types
pub mod Tokens
pub mod Features
pub mod Filters
pub mod FeatureCache
pub mod UnleashClient
pub mod TokenValidator
pub mod Refresher
pub mod Metrics
pub mod ClientApi
pub mod Middleware
pub mod EdgeApi
pub mod Builder
pub mod Backstage
pub mod Urls
pub mod Cli
pub mod Contexts
pub mod FrontendApi
pub mod Broadcaster
pub mod Persistence
mod Examples
