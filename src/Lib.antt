-- ===== src/Lib.antt =====
-- MyFans, the core of the backend and a price of the frontend: subscriptions, payments, sessions,
-- content, games and deliveries.
--
-- The backend (backend/src, NestJS) keeps who has subscribed to whom in one table, the subscription
-- index. The subscriptions service writes it when a checkout is confirmed and when a subscription
-- is renewed, expired or cancelled; the event poller and the lifecycle endpoint write it from the
-- contract's events; the chain sync and the reconciler repair it. Everything that gives access asks
-- isSubscriber. Around it stand the idempotency keys of unsafe requests, the retries of the RPC
-- calls, the spending caps, the refresh tokens of a session, the referral codes and the webhooks;
-- and the parts that a user sees: posts with their feed and likes, content with a tier, flags and
-- their reviews, games, notices and the emails of the outbox. Likes on premium posts, content with
-- a tier and gated routes ask isSubscriber too.
--
-- Files, and the code that each is about:
-- - Common: names that all share, the tests and lists over the native numbers, integers, and
--   Actions, a call that may throw and that changes a state (what was written before a throw stays
--   written).
-- - Database: the interface of a TypeORM repository. The source calls TypeORM and PostgreSQL and
--   does not contain them: the operations are parameters, and their laws are what these document
--   (findOne with an order, save as insert or replacement, unique constraints answered by error
--   23505, update and delete by condition). ListTable meets the laws by a list. Laws, Saves and
--   Replacing have what follows from the laws; Ordered is the interface of a query with an order,
--   which Sorting meets.
-- - Idempotency: backend/src/idempotency/idempotency.service.ts and its entity; Slots and Traces
--   have the proofs.
-- - RpcRetry: backend/src/common/utils/rpc-retry.ts: withRetry with its backoff and circuit
--   breaker.
-- - Subscriptions: backend/src/subscriptions. The file itself has the entity; Repository is
--   repositories/subscription-index.repository.ts; Service and Checkout are
--   subscriptions.service.ts; ChainSync is services/subscription-chain-sync.service.ts; Reconciler
--   is subscription-reconciler.service.ts; Poller is services/subscription-event-poller.service.ts
--   (Events and Repeats have the proofs); Indexer is subscription-lifecycle-indexer.service.ts;
--   SpendingCap is services/spending-cap.service.ts, with the texts that its bigint columns are
--   read as; Cache is subscription-cache.service.ts; Guard is gated-content.guard.ts over the
--   cache, the index and the chain reader; System puts all the writers of the index into one step
--   relation.
-- - Auth: backend/src/auth/wallet-auth.service.ts: the challenges that a wallet signs.
-- - RefreshTokens: backend/src/refresh-module/refresh-token.service.ts.
-- - Referral: backend/src/referral/referral.service.ts.
-- - Webhook: backend/src/webhook: Secrets is webhook.service.ts, Processor is
--   webhook-event-processor.service.ts.
-- - Posts: backend/src/posts/posts.service.ts: Deletion has the proofs on softDelete; Feed is
--   findFeed, with a reader that follows its cursors.
-- - Likes: backend/src/likes/likes.service.ts: Sets has the set of pairs of a user and a post, Rows
--   the rows that stand for it, and Refinement what the calls promise on the set.
-- - Games: backend/src/games/games.service.ts: Membership, Leaving, Play and Sessions have the
--   invariant of players and hosts.
-- - Emails: backend/src/notifications/email-outbox.service.ts.
-- - Notifications: backend/src/notifications/notifications.service.ts, its calls in Service: the
--   retry queue of lifecycle notices (Calls, Queue, Attempts) and their digest windows (Digest).
--   The outbox and the durable store of the queue are ports of the service, and both may throw.
-- - Content: backend/src/content: content.service.ts and content-access.service.ts.
-- - PlanForm: frontend/src/lib/plan-form.ts: the price that a creator types, and its amount in the
--   token's units.
-- - Moderation: backend/src/moderation/moderation.service.ts: Trail and Reviews have the invariant
--   of flags and their audit log.
--
-- Names are those of the source in snake case: upsertManual is upsert_manual, and so on. Addresses,
-- ids, hashes and other texts that the code only compares are numbers. Instants are milliseconds
-- (those of posts in a feed microseconds, as the column has them) and expiries Unix seconds, as in
-- the source; `now / 1000` is Math.floor(Date.now() / 1000). A call reads the clock once, where the
-- source may read it some milliseconds apart. Amounts of a checkout are exact numbers in units of
-- 10^-7, the seven decimals that the source prints; the rounding of doubles is left out. An expiry
-- above Number.MAX_SAFE_INTEGER is refused, as in the source. A call of a service is one step; the
-- index has no transactions around these calls, so a step is what one call does with nobody between
-- its queries. The calls of games and of redeemCode are transactions in the source. Where calls
-- overlap, Auth.Challenge.Replay takes a call apart into its two queries. The loops are recursions
-- on lists and on the number of attempts left, and need no fuel. The reader of a feed asks for a
-- number of pages that is given to it; one more than there are posts is proved to be enough.
--
-- The stubs of the source are modelled as such: the reconciler's chain query answers null, and the
-- poller takes thirty days for the expiry. The reconciler does not await its repairs, so a run
-- answers the repairs that it starts, and settle runs them.
--
-- Not modelled: HTTP and validation of the requests; the guards other than the one of gated
-- content; the base64 text of a feed's cursor; the XDR encoding and the transport of the RPC calls;
-- logs and metrics; a failure of the database's connection, apart from the durable store of the
-- notices, which may throw at any write; the reload of the notices after a restart; what TypeORM's
-- save does with the players that joinGame's game carries; the event that a login publishes; and
-- the parts of the backend and of the frontend that the component list of the project names as not
-- modelled.
pub mod Auth
pub mod Common
pub mod Content
pub mod Database
pub mod Emails
pub mod Games
pub mod Idempotency
pub mod Likes
pub mod Moderation
pub mod Notifications
pub mod PlanForm
pub mod Posts
pub mod Referral
pub mod RefreshTokens
pub mod RpcRetry
pub mod Subscriptions
pub mod Webhook
