-- ===== src/Lib.antt =====
-- AstraPort API: a NestJS backend, of which this library models the parts that keep state of their
-- own in memory. A path here is from the repository's root.
--
-- The program's parts, and the modules that model them:
--   Prelude      JavaScript's Map with text keys (JsMap), JSON values (Json), lists and tests on
--                numbers, text (JsString).
--   Environment  what the two configuration loaders share: positive integers and switches.
--   Cache        src/cache: Memory is backends/memory-cache.ts, Service is cache.service.ts,
--                Backend is the interface CacheBackend of cache.types.ts, through which the
--                service reaches its second tier. The service counts into the metrics.
--                Configuration is cache.config.ts.
--   Monitoring   src/monitoring: Metrics is metrics.service.ts, Rules and Alerting are
--                alerting.service.ts, Logs is log-aggregation.service.ts, Tracing is
--                tracing.service.ts and Performance is performance.service.ts; Buffers is what the
--                logs and the tracing share.
--   RateLimit    src/rate-limit: Algorithms is rate-limit.algorithms.ts, Service is
--                rate-limit.service.ts (Check holds `check` and the cleanup), Interceptor is
--                rate-limit.interceptor.ts, Configuration is rate-limit.config.ts. The service
--                counts into the metrics.
--   Pagination   src/pagination/helpers: the offset pages, and in Cursors the pages that cursors
--                lead through, as `findAllCursor` of src/ai-triggers/ai-triggers.service.ts puts
--                them together.
--   Subscriptions  src/subscriptions: Types holds the entities, Filter and Service (Records for
--                the delivery records) are subscription.service.ts. Listing uses the pages.
--   Webhook      src/webhook/webhook.service.ts: Signature is `verifySignature`, RetryQueue is
--                `retryDueDeliveries` and the dashboard. It publishes to the active subscriptions
--                and records each attempt with the subscription service.
--   Auth         src/auth: Service is auth.service.ts with token-revocation.service.ts, `validate`
--                of strategies/jwt.strategy.ts and guards/roles.guard.ts; Storage is what it asks
--                of the database, of bcrypt and of the JWT library, with the behaviour relied on.
--   Audit        src/audit-log: the entries, integrity/log-integrity.verifier.ts and
--                `verifyIntegrity` of audit-log.service.ts.
--   Staking      src/staking/emergency-unstake.service.ts with src/contracts/contracts.service.ts:
--                the penalty, the weekly limit and the withdrawal from the positions that the
--                contracts keep. Portfolio is portfolio.service.ts with asset-registry.service.ts.
--   Files        src/files/services: Service is files.service.ts with the validator, the scanner
--                and the optimizer, Garbage is garbage-collector.service.ts. What is uploaded
--                counts into a quota.
--   Queue        src/modules/queue/services/queue.service.ts, over the queues of Bull.
--   Validation   src/validation/files/file-validation.ts: Uploads is `validateFile` and
--                `validateFiles`.
--   Rebalancing  src/rebalancing/drift-calculator.service.ts: Drift is the snapshot of a
--                portfolio, Service the configurations, history, alerts and webhooks, Analysis is
--                `analysePortfolio`.
--   Logging      src/logging/utils/redact.util.ts: Redact is `redactSensitiveData`; Errors is
--                src/logging/errors, ExceptionFilter is filters/global-exception.filter.ts.
--   Tests        runs of the properties at concrete inputs.
--
-- How state and operations correspond: a service class is a record of its fields, a method is a
-- function from its arguments and the state to its result and the new state, named as the method
-- in this library's spelling (`recordDeliveryAttempt` is `record_delivery_attempt`). An exception
-- is a value of the result. A method reads the clock once, as the argument `now` in milliseconds;
-- a new identifier is an argument. A method that awaits runs to its end before another begins.
--
-- Numbers and bounds: all quantities are natural numbers. A token bucket counts in units of a
-- token over the window, which makes the refill exact where the program rounds in floating point;
-- limits and windows are positive, as RateLimit.Configuration loads them. Rates and latencies of
-- the alerts are in hundredths, penalties in parts of a fixed unit, the weights of a portfolio and
-- the amounts of staked portfolios in units of 1e-8; the trend of an analysis is exact, where the
-- program's floating point rounds. A calendar day is 24 hours, as on a server whose clock keeps
-- UTC. Every loop of the program is over a list and ends with it, so that no function of the model
-- takes fuel; the walk along the cursors in Pagination.Cursors counts its pages, one more than
-- there are rows. Text is compared as the program does; upper and lower case and white space are
-- those of ASCII.
--
-- Not modelled: what is only a call of a library or a service (Redis, the database, passport,
-- cloud storage), the framework's glue (controllers, modules, decorators), the writing of logs,
-- and the timers, whose callbacks are functions. HMAC, SHA-256, JSON.stringify, fetch, the
-- conversions by which the configurations are read (Number, String, JSON.parse), the JSON and
-- base64url of the cursors, the second cache tier, the users' database, the storage of files, the
-- virus scanner, the image library and the queues of Bull are parameters. The plans of
-- rebalancing, the preview and the history of emergency unstakes, the audit log's queries, the
-- domain rules over zod and the health checks have no model here.
pub mod Prelude
pub mod Environment
pub mod Cache
pub mod Monitoring
pub mod RateLimit
pub mod Rebalancing
pub mod Pagination
pub mod Subscriptions
pub mod Webhook
pub mod Auth
pub mod Staking
pub mod Queue
pub mod Files
pub mod Logging
pub mod Validation
pub mod Audit
pub mod Tests
