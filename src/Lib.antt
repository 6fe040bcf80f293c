-- ===== src/Lib.antt =====
-- MeowCLI is a proxy that spreads requests for language models over a pool of credentials. This
-- library models the logic that chooses and paces the use of credentials, and the request log that
-- the choice is fed from.
--
-- The parts and their files:
--   Common          lists, texts (byte strings), Go maps as association lists, ASCII string functions.
--   Float           float64 as a parameter: its operations, the laws of comparison that are used, and
--                   a concrete instance for the examples.
--   Scheduling      core/scheduling.
--     Backoff       calcBackoff and DecideFailureThrottle of scheduling.go, on int64 durations.
--     Best          PickWeightedFromBest and insertBestCandidate of scheduling.go. The candidate slice
--                   is a list back to front, and the value of rand.Float64 is an argument.
--     Plans         PlanTypeCodeSet, PlanTypeAllowed and MergePlanTypeCodes of scheduling.go.
--     Times         WindowStart and LatestWindowStart of scheduling.go, EarliestTime of
--                   quota_syncer.go.
--     QuotaSync     QuotaSyncer of quota_syncer.go: nextDelay, prioritizedDueRows, syncDueRows and
--                   withAttemptedSyncTimes. The callbacks RowID, SyncedAt, ResetAt and WithSyncedAt are
--                   a record; what List returns and how many syncs began are arguments.
--     Refresh       RefreshRows of score_refresh.go over an atomic pointer. The pointer is a cell that
--                   counts its stores, and the stores of other goroutines are part of the input: one
--                   list for each attempt of the loop.
--   Codex           core/codex/scheduler.go, with plan_type.go and model_tier.go beside it.
--     Tiers         ResolveModelTier, throttleTierForModel and the keys of the throttle table.
--     PlanTypes     NormalizePlanType, the codes of plan types and codesFor.
--     Rows          availableRow, availableSnapshot, buildAvailableSnapshot and weightedTierScore.
--     Select        selectCredential on the snapshot that listAvailable returns; the value of
--                   rand.Float64 is a function of the number of the call.
--     Pool          evictCredential, suspendCredentialTier and throttleCredentialTier.
--     Weights       refreshCredentialWeight and applyCredentialWeight. sort.Slice is an argument.
--     Throttle      the throttle table, RecordSuccess and RecordFailure. A handler reads the clock and
--                   the settings once, and the call of SetQuotaThrottled is a result.
--     Scores        calcCodexScore, with QuotaPressureScore of core/scheduling/scheduling.go; the clock is
--                   read once.
--     Memory        applyMemoryThrottles.
--     Quota         availableQuota, mergeQuotaUpdate, applyQuotaToAvailable, UpdateQuota and
--                   refreshAvailableScores, with the stores of other goroutines as in Scheduling/Refresh.
--     Unauthorized  HandleUnauthorized, with access_enforcement.go; the JSON of sonic is an argument, and
--                   what the manager does with the credential a verdict.
--     Available     refreshAvailableFromRows and computeErrorRates; the rows of the database are an
--                   argument.
--     Storing       StoreQuota, updatePlanType and RefreshAvailable over a database that is a parameter.
--     Retry         RetryDecision.
--     Refreshing    startQuotaRefresh and completeQuotaRefresh.
--   Relay           internal/bridge/relay.go, with the status classes of errors.go in Status. World is what
--                   the loop calls: the scheduler, the backend, the client, the clock and the caches of
--                   otter. Attempt is one round, Loop the rounds that are left.
--   Affinity        internal/bridge/affinity_cache.go: Edges the common prefix of two keys, Trie the
--                   radix trie of one bucket. A node is known by its key, in place of its address,
--                   and the heap of a node's candidates is left out: what it gives is computed from
--                   the children. Find gives the marks by their keys, Nearest and Wellformed what
--                   the cached terminals stand for.
--     Expiry        expireTerminal, pruneEmptyPath and recomputePath, as one walk down to the node and
--                   back up.
--     Bindings      contentAffinityTable: match, bind and expireContentAffinityBinding. The cache of
--                   otter is a parameter, whose operations report the values that they delete; its
--                   locks and its capacity are left out.
--   Contents        internal/bridge/contenthash: the Collector, and Collect of the builders for Chat
--                   Completions, the Responses API and Gemini. What is asked of a node of sonic is a
--                   record of functions, and the hash of xxh3 is an argument.
--   Utils           ParseDelimitedList, JoinNormalizedList, NormalizeAllowedKeys and
--                   ParseRetryAfterHeader of utils/helpers.go.
--   Settings        internal/settings/service.go: Snapshots has the settings, their normal form and
--                   their rows, Endpoints NormalizeAntigravityAPIEndpoint, Service the loading and
--                   saving over a database that is a parameter.
--   Logs            internal/logs/store.go, with the types of internal/store/store.go in Rows.
--     Store         insertion, pruning, trimming, compaction, snapshots and clearing.
--     Query         QueryLogs, its filter and its statistics.
--     ErrorRates    ErrorRatesForCredentials, which the schedulers weigh credentials by.
--   Examples        the theorems at concrete inputs.
--
-- The parts meet where a scheduler reads the error rates of its credentials from the log, turns
-- scores into a weighted pick among the best, and feeds each failure to the throttle decision; a
-- quota syncer keeps the rows of the scheduler's snapshot up to date, and a snapshot is replaced by
-- compare-and-swap. The relay asks a scheduler for a credential, sends the request, and reports each
-- response to it; the settings give the limits, the windows and the durations that the parts read.
--
-- Numbers: a setting is an int of 64 bits, an instant the number of nanoseconds since the zero time
-- of Go, an int64 duration its bit pattern where it can wrap, and a status code or a count a natural
-- number. Nothing here needs fuel: the relay counts its attempts down, the loops run over lists, the
-- doubling of the backoff over its counted rounds, and the loop of compare-and-swap over the given
-- interference, behind which nobody stores any more.
--
-- Strings are bytes. Folding case, trimming and searching are modelled for ASCII. json.Valid is an
-- argument. The lock of the log store is not modelled: each of its operations is one step, and it
-- reads its settings once.
--
-- Not modelled: the goroutines with their timers (QuotaSyncer.Start, ScoreRefreshLoop.Start), the rest
-- of the Codex scheduler (the database, the goroutines that validate credentials and fetch quotas),
-- the schedulers of the other providers in core, what surrounds the retry loop in
-- internal/bridge, the builder of content hashes for Messages, the provider clients in api, the database in internal/db, the handlers of internal/handler and the web
-- pages.
pub mod Common
pub mod Float
pub mod Scheduling
pub mod Logs
pub mod Codex
pub mod Relay
pub mod Utils
pub mod Settings
pub mod Affinity
pub mod Contents
mod Examples
