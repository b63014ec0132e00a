-- ===== src/Lib.antt =====
-- The relay core of NewAPI Gateway: a gateway that admits a call, plans which upstream routes may
-- serve its model, tries them in order, and judges and copies what they answer.
--
-- Parts, and the files that model them (paths from the repository's root):
-- Token: model/provider_token.go. The key of an upstream token is classified, stored and marked;
--   Token/Rows has the row, ProviderToken, and a function for each method, Token/Store Insert, Update,
--   UpsertProviderToken and DeleteProviderTokensNotInIds on a table of rows.
-- Provider: model/provider.go and model/provider_runtime.go. Provider/Rows has the row,
--   Provider/Runtime the tests of health, freshness and eligibility, Provider/Filters the route
--   filter in memory (keeps_route_state) and in SQL (route_filter_query), Provider/Health
--   MarkHealthFailure and MarkHealthSuccess, Provider/ProxyConfig the checks and the redaction of proxy
--   addresses. Provider/Client and Provider/Marking are service/provider_http.go.
-- Options: model/model_route.go (loadRoutingTuningConfig and the option parsers) and
--   model/relay_reliability.go.
-- Routing: model/model_route.go. Routing/Plan is BuildRouteAttemptsByPriority and
--   SelectProviderToken; it calls Routing/Metrics (buildRouteRuntimeMetrics), Routing/Score,
--   Routing/Balance, Routing/Suppression and Routing/Shuffle (weightedShuffleAttempts).
--   Routing/Rebuild is RebuildRoutesForProvider. The other files of each part hold its theorems.
-- Alias: common/model_alias.go (Alias/Names) and model/provider_alias_mapping.go (Alias/Lookup).
-- Catalog: model/model_catalog.go (Catalog/Buckets, Catalog/Build, Catalog/Lookup) and the static
--   snapshot with getCandidateRoutesByModelCached of model/model_route_cache.go (Catalog/Snapshot).
-- Cache: model/model_route_cache.go. Cache/Static holds the snapshot, Cache/Metrics the recent costs.
-- Sync: service/sync.go, the routes that RebuildProviderRoutes derives.
-- Notify: service/notification.go (EvaluateRequestFailureAlert) and the row of model/notification.go.
-- Relay: controller/relay.go. Relay/Handler is Relay: the whitelist, the plan with its fallback,
--   the loop over the attempts, and the reply.
-- Proxy: service/proxy.go. Proxy/Classify and Proxy/Output judge responses and stream lines,
--   Proxy/Body is proxyNonStreamResponse, Proxy/Stream is proxyStreamResponse, Proxy/Usage merges
--   usage, Proxy/Extract and Proxy/Reported read it from a payload. Proxy/Request builds the upstream
--   request, Proxy/Upstream is ProxyToUpstream, Proxy/Log is logUsage, and Proxy/Redact is
--   redactCredentialLikeValues.
-- Access: model/aggregated_token.go, middleware/agg_token_auth.go and middleware/auth.go.
-- RateLimit: common/rate-limit.go. Verification: common/verification.go.
-- A plan of Routing uses the readiness of Token, the eligibility of Provider and the configuration of
-- Options; Relay takes a plan and the outcome of each attempt, and Proxy gives the outcome. Relay/Single
-- runs Relay with ProxyToUpstream. Sync derives routes from tokens and prices, Routing/Rebuild stores
-- them, Catalog finds those for a model with the names of Alias, and Cache keeps the snapshot between.
--
-- Conventions. Text is a list of code points; where the length of a text that may not be ASCII
-- matters, Proxy/Redact counts the bytes of UTF-8. strings.ToLower and EqualFold are exact for the
-- code points that they take to an ASCII letter, and leave all others as they are. Integers are ℤ
-- over the native ℕ, and sums of int64 times wrap around (add64, scale64, sub64). float64 is the
-- interface Floats, with the few laws of IEEE 754 that the proofs use in FloatLaws and FloatBounds.
-- A nil pointer, a missing row and a panic are `none`, as each definition says. A Go map is a
-- function, or the list of its entries where its order of insertion matters.
--
-- Parameters. Database queries, the clock, random numbers, JSON parsing, HTTP, hashes, URL parsing and
-- the zone data are arguments of the definitions. Routing/Plan takes the candidate routes that it is
-- given, Relay/Handler the call of an upstream and the canonical name of a model, and Proxy/Stream the
-- parser of usage lines as arguments too; Catalog, Proxy and Alias model what the source calls there.
-- The row that gorm's Create stores is a parameter of Routing/Rebuild and Token/Store; Creates, in
-- Token/Stored, says what the latter relies on.
--
-- Bounds. weighted_shuffle runs on fuel equal to the length of its pool, which is enough since each
-- round removes an attempt; insert runs on the eight attempts of the source; has_text_within counts
-- the depth of hasAnyTextualOutputDepth down from 7, for depths 0 to 6, and find_usage_map that of
-- findUsageMapRecursive in the same way; strip_labels makes the six rounds of the source; batches
-- takes 50 rows at a time.
--
-- Not modelled: the controllers for management, users and backups, the delivery of notifications,
-- check-in, the calls to the upstream management interface, usage statistics, process start, and the
-- web frontend: they are mostly input and output around database queries.
pub mod Prelude
pub mod Token
pub mod Provider
pub mod Floats
pub mod Notify
pub mod Options
pub mod Routing
pub mod Relay
pub mod RateLimit
pub mod Access
pub mod Alias
pub mod Catalog
pub mod Cache
pub mod Sync
pub mod Proxy
pub mod Verification
pub mod Tests
