-- ===== src/Lib.antt =====
-- Verification of enchanted-proxy, a proxy between chat clients and AI providers: which provider a
-- request goes to, what a user's plan allows, how payments become plans, how one answer is
-- streamed to many readers, and how devices share a key.
--
-- The parts and the code that they model:
--   * `Prelude`: Boolean tests on numbers, lists, Go's maps as association lists with one entry for
--     each key, Go's strings as lists of bytes (ASCII).
--   * `Routing` models internal/routing/model_router.go and the configuration records of
--     internal/config/routing.go. `Build.rebuild_routes` is `RebuildRoutes`,
--     `Validate.validate` is `ModelRouterConfig.Validate`, `Select.get_model_endpoint_provider` is
--     `getModelEndpointProvider`, `Route.route_model` is `RouteModel`. The order in which Go
--     iterates over a map is an argument. The counter of a route wraps at 2 ^ 64.
--   * `Fallback` models internal/fallback/service.go: `Worker.refresh_endpoints` is
--     `refreshEndpoints`, one step of a worker on the routing table that it shares with the router.
--   * `Quota` models internal/tiers/tiers.go, internal/request_tracking/middleware.go, the tier and
--     the sums of internal/request_tracking/service.go, and internal/errors/ratelimit.go:
--     `Middleware.request_tracking_middleware` is `RequestTrackingMiddleware`, and `Reset` has the
--     three `Get...ResetTime`, on dates of the Gregorian calendar. The middleware resolves aliases by
--     the router of `Routing`.
--   * `Payments` models the payment callback of internal/zcash/service.go with the statements of
--     internal/storage/pg/queries/zcash_invoices.sql and entitlements.sql:
--     `Callback.handle_payment_callback` is `HandlePaymentCallback`. The tier that it grants is the
--     one that `Quota` reads. `Expiry` is internal/zcash/expiry_worker.go: its loop over batches is on
--     fuel, a unit for each batch. With the database up a batch that is not empty expires its rows, so
--     that one unit more than there are overdue invoices is enough.
--   * `Probe` models the loop of internal/probe/worker.go, `probeWorker.run`, with the outcome of a probe
--     as a Boolean.
--   * `Streaming` models the session of internal/streaming/session.go and its subscribers
--     (internal/streaming/subscriber.go): `Buffer.store_chunk` is `storeChunk`, and `Session` has an
--     operation for each method. A panic of Go is a result. `Manager` is
--     internal/streaming/manager.go, with sessions as pointers; `Sharing` runs the halves of its calls as events. `Tools` is
--     internal/streaming/tool_detector.go.
--   * `Glm` models internal/streaming/glm_content_filter.go: `Filter.filter_content_chunk` is
--     `FilterContentChunk`, whose loop is on fuel: the length of the text, since each round but the last
--     one passes a tag. `Scan` describes the filter as one pass over the characters.
--   * `KeyShare` models internal/keyshare: `Store` is firestore.go, `Service` is service.go, `Hub` is
--     websocket_manager.go, and `Listen` is the end of `WebSocketListen` in handlers.go, as steps of its
--     two goroutines.
--   * `Fai` models internal/fai/service.go: `Service.handle_payment_received_event` is
--     `handlePaymentReceivedEvent`, and `Sync.sync_historical_blocks` is `syncHistoricalBlocks`, whose
--     loop has fuel for more than the four batches of the last 1801 blocks. A price is scaled to whole
--     units; the rounding of floating point is left out.
--   * `Invites` models internal/invitecode with the statements of
--     internal/storage/pg/queries/invitecodes.sql: `Service.use_invite_code` is `UseInviteCode`, in its
--     reading and its writing half, between which other requests run.
--   * `Background` models internal/background/polling_manager.go: `Polling.start_polling` is
--     `StartPolling`, and `Crowd` runs its three parts as steps of concurrent calls. The counter is an
--     int32 with its wrap-around.
--
-- Parameters: the Prometheus query (its outcomes are a data type), the JSON parser of request bodies,
-- the UUID parser, the answer of the payment backend, the chain with its events,
-- the price of a coin, the hash of a code, random bytes, the failures of databases, the clock. Lists of
-- requests and operations are processed by structural recursion; the loops named above are on fuel.
--
-- Not modelled: the reading of the upstream with its tool calls, the creation of zcash invoices, deep
-- research, the loop of a polling worker, the adapter of the responses API, and the services around
-- storage and third-party clients; logging; HTTP and JSON encoding; the settings of probes in an endpoint;
-- names and prices of products; time stamps of chunks; the sends of a replay (its end is); token
-- multipliers are in hundredths and amounts are not negative.
pub mod Background
pub mod Prelude
pub mod Routing
pub mod Fallback
pub mod Quota
pub mod Payments
pub mod Streaming
pub mod Probe
pub mod KeyShare
pub mod Fai
pub mod Invites
pub mod Glm
