-- ===== src/Lib.antt =====
-- A verification library for the worker of the LinkedIn outreach system (worker/src): the guards
-- that decide when an automated action may run, and the loops that run them.
--
-- The parts, and the files that model them:
--
-- - Redis, Redis.Memory: the commands of the Redis server that the worker sends, as the fields of a
--   record, with the documented behaviour that is relied on as records of laws; a server in memory
--   that satisfies them. A rejected command is `up s ≡ false`; the client in memory of
--   DISABLE_REDIS=1 (worker/src/redisClient.js), which lacks some commands, is not modelled. Keys do
--   not run out between the steps of a theorem, unless it says so.
-- - RateLimit (worker/src/rateLimit.js): checkAndIncrement, checkOnly and getLimits are
--   check_and_increment, check_only and get_limits; incrAtomically is incr_atomically, on Redis or
--   on the map of the process, whose deletion timers are a list of instants.
-- - AntiBan (worker/src/antiBan.js): BusinessHours has isWithinBusinessHours and
--   secondsUntilNextBusinessWindow, Breaker has gateAction, recordSurfaceFailure and
--   clearAccountCooldown, Fingerprint has fingerprintForAccount, Egress the two proxy resolvers.
-- - ProxyPool (worker/src/proxy/proxyPool.js): Candidates has loadCandidates, Health has checkProxy,
--   passesGate and the batches of refresh, Choice has the published set, pick and reportFailure.
--   The async resolver of AntiBan.Egress asks this pool.
-- - SyncPosture (worker/src/syncPosture.js): classifySyncFailure and the posture that is written
--   and read back. The postures are the signals that AntiBan.Breaker counts.
-- - Harvest (worker/src/harvest): State is harvestState.js, Scheduler is harvestScheduler.js,
--   Backfill is backfillOrchestrator.js, Runner is harvestRunner.js. The runner picks a task that the
--   gate lets pass, takes tokens, runs one page, and writes the next date into the state.
-- - Webhook: Guard is worker/src/security/ssrfGuard.js, Retry is
--   worker/src/services/webhookRetryService.js with the two functions of
--   worker/src/db/repositories/UnifiedRepository.js on its rows, Dispatcher is
--   worker/src/events/webhookDispatcher.js. Both senders ask the guard before each request.
-- - ConnectSessions (worker/src/connectSessions.js): the sessions of a connection by hand.
-- - Credentials (worker/src/auth/credentialStore.js): the encrypted credentials and their status.
-- - Normalizer (worker/src/unified/normalizer.js): the texts and ids are in Normalizer, the hash in
--   Json, dates in Dates, confidences in Confidence, buildMessageDedupeKey in Keys, normalizeMessage
--   in Messages, profiles and conversations in Records, the others in Activity.
-- - MessageRepository (worker/src/db/repositories/MessageRepository.js): upsertMessage is
--   Upsert.Ladder.upsert_message, with what it writes in Upsert.Data and its conflicts in
--   Upsert.Conflicts; Dedupe, Pages and Cleanup have the removal of duplicates, the pages and
--   cleanupConversationDuplicates, Repair what repairMessageDuplicates plans; Conversations has
--   upsertConversation, refreshConversationStats and mergeConversationInto. A query of Prisma is a
--   field of a record, with the predicate of its `where` and, where it is relied on, its documented
--   behaviour as a record of laws.
-- - UnifiedRepository (worker/src/db/repositories/UnifiedRepository.js): upsertConnection,
--   upsertInvitation, upsertNotification and upsertPost, of what the normalizer made.
-- - EventBus (worker/src/events/eventBus.js), and EventBus.Persistence
--   (worker/src/events/persistenceConsumer.js): a consumer's loop by turns, over a stream as argument,
--   whose handler's calls EventBus.Calls follows.
--   The consumer normalizes a realtime message and hands it to the repository.
-- - Inputs: Identity is worker/src/accountIdentity.js, Sanitizers is worker/src/sanitizers.js.
-- - Prelude: the shared names, Boolean tests, lists, texts, and dictionaries by text.
--
-- Conventions. State is passed explicitly: a function that changes Redis or a map takes the old
-- store and answers the new one. Numbers are the native ℕ: what the code computes from times and
-- counts is not negative there, and where a subtraction could be, the file says what is done.
-- Errors are values. JavaScript's texts keep its names as Redis keys; `toLowerCase`, `trim`, regular
-- expressions, JSON, hashes, the clock, the environment and randomness are arguments, and so are
-- Node's URL parser and resolver, and Playwright.
--
-- Bounds and fuel. The loop over the weekend takes two rounds, since the two days of a weekend are
-- all it can pass; a consumer runs for a number of turns, which its theorem leaves open; the batches
-- of the proxy refresh run on fuel, and one round more than there are candidates is enough if the
-- concurrency is not zero; all other loops are recursion on a list or on
-- the attempts that are left.
--
-- Not modelled: the HTTP API, the queue, the browser scripts and the Voyager clients, which are calls
-- of libraries on live systems; the sync orchestrator; of the repositories the writes of the repair,
-- sync runs, cursors and snapshots, and the plain queries; the web application outside worker/. Time
-- zones are resolved outside, and days have 24 hours.
mod Prelude
pub mod Redis
pub mod RateLimit
pub mod AntiBan
pub mod ProxyPool
pub mod SyncPosture
pub mod Harvest
pub mod Webhook
pub mod ConnectSessions
pub mod Inputs
pub mod Credentials
pub mod Normalizer
pub mod MessageRepository
pub mod EventBus
pub mod UnifiedRepository
