-- ===== src/Lib.antt =====
-- The pricing service of a used-part seller on eBay: jobs that price catalog parts against the
-- market, the governance of the prices that they propose, the delivery of what failed or waits, and
-- the access of an organization's members.
--
-- The parts, with the files that model them (paths from the repository's root):
--   Database, Database.Memory   the Prisma client that the services share (apps/api/src/db.ts). It is
--       not part of the repository: `Prisma` has the calls as fields, and `IsDocumented` says what
--       the client documents. A theorem is proved of a client in memory and carried over to every
--       documented one.
--   Schema, Schema.Store, Schema.Double   the rows of apps/api/prisma/schema.prisma, the tables that
--       the pricing services share, and JavaScript numbers as an interface `Double` whose facts
--       (`IsOrdered`) are hypotheses; `Fixed` shows that they can hold.
--   Jobs.Retry   apps/api/src/job-runtime.ts: `runWithRetry`.
--   Jobs.Pricing (Create, Item, Run, Resume)   apps/api/src/pricing-service.ts: `createPricingJob`,
--       `processPricingItem`, `runPricingJob`, `resumeInterruptedPricingJobs`. An item calls the
--       market (a parameter), Market and Pricing.Governance in one transaction.
--   Market.Matching, Market.Analytics   apps/api/src/domain/matching.ts and analytics.ts.
--   Pricing.Governance (Proposals, Decision, Approval)   apps/api/src/pricing-governance-service.ts.
--   Pricing.Formula (Plan, Price)   apps/api/src/bulk-pricing-formula.ts: normalization, of input that
--       the schema library has parsed, `buildCalculationPlan`, the fee breakdown and the price.
--   Jobs.Bulk (Prices, Item, Run, Requests, Create)   apps/api/src/bulk-pricing-service.ts: the jobs that
--       price a sheet, by Pricing.Formula or by the market.
--   Delivery.DeadLetter, Delivery.Outbox   apps/api/src/dead-letter-service.ts and outbox-service.ts.
--   Delivery.Idempotency   apps/api/src/idempotency-service.ts: `executeIdempotent`. What other
--       requests do while the operation runs is left out.
--   Access (Permissions, Tokens, Sessions, Team)   apps/api/src/organization-access.ts,
--       authorization-policy.ts, auth.ts, auth-sessions.ts, organization-team-service.ts.
--   Access.Accounts (Login, Codes, Recovery, Mfa, Register)   apps/api/src/account-auth-service.ts, with
--       `passwordMeetsPolicy` and `matchingTotpStep` of credential-security.ts.
--   Access.Invitations (Manage, Accept)   apps/api/src/organization-team-service.ts: the invitations.
--   Fitment (Properties, Create, Revise, Decide)   apps/api/src/manual-fitment-service.ts: the
--       applications of a part to vehicles, and the listing drafts that a decision invalidates.
--   Fitment.Discovery, Fitment.Approve   apps/api/src/fitment-service.ts: the scores of candidates, the
--       status of a job, and the approval of a candidate.
--   Catalog.Sku   apps/api/src/sku-policy-service.ts: `allocateOrganizationSku` and
--       `updateOrganizationSkuPolicy`. The loop's fuel is the count of numbers left, so it ends.
--   Http.RateLimiter   apps/api/src/http-hardening.ts.
--
-- State is passed explicitly: an operation takes the tables and returns its result with the
-- tables after it. The creation of a job, a decision, an approval, a requeue and an
-- idempotent request, which read before their transaction, take `meanwhile`: what other requests do
-- in between, as do the changes of the team before their lock. Every other operation is read and
-- written in one step.
-- Identifiers, hashes and times are numbers; a run that reads the clock several times for one
-- row takes one time for it. Loops are recursion on their lists, and the retries recursion on
-- the attempts left, of which `maxAttempts` are enough by `run_with_retry_calls`.
--
-- Not modelled: reads for display, payloads of events, the Express routes, cookies and the eBay APIs,
-- which keep no state that the theorems are about; the runner of fitment discovery, the CSV of a sheet,
-- the listing drafts and their publication, imports, media and retention, which are
-- state machines of their own and can be added beside these.
mod Prelude
pub mod Fitment
pub mod Database
pub mod Schema
pub mod Market
pub mod Access
pub mod Delivery
pub mod Pricing
pub mod Jobs
pub mod Http
pub mod Catalog
mod Examples
