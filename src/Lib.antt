-- ===== src/Lib.antt =====
-- A verification library for the backend of the accounting system (apps/backend/src): its transaction
-- boundary, the accounting module's fiscal years, fiscal periods and accounts, money, the transactional
-- outbox, the background jobs, the rate limiter, and the identity module's authorization and sign-in.
--
-- How the parts meet. A use case of modules/accounting runs in the ambient tenant scope, opens the boundary
-- of shared/transaction, loads aggregates through the repositories, changes them, and writes rows, events and
-- audit entries that commit together. The outbox publisher later claims the committed events and hands them
-- to a transport; the dispatcher runs background jobs, among them the publisher's.
--
-- The files, with the code that each models, by its path under apps/backend/src:
-- - Prelude: Boolean tests, lists over native numbers, integers (bigint, and number for whole numbers), and
--   Outcome for code that answers or throws.
-- - Transaction: shared/transaction/transaction-boundary.ts and transaction-context.ts. Work is a function on a
--   session, which holds the store and the boundary on the call stack; `execute` joins the boundary or opens
--   one. Transaction.Atomicity has its theorems.
-- - Primitives: shared/primitives/assert.ts (Text) and shared/id/entity-id.ts (EntityId). A string is its list
--   of UTF-16 code units; an identity is the 128-bit number of its UUID.
-- - Decimal and Money: shared/primitives/decimal.ts, rounding-mode.ts and shared/money/money.ts, on exact
--   integers without bound, as bigint is.
-- - Time: shared/primitives/calendar.ts (Calendar), shared/time/business-date.ts
--   (BusinessDate) and shared/time/jalali-calendar.ts (Jalali, and Jalali.Dates between dates and day numbers).
-- - Tenancy: shared/tenant/tenant-scope.ts and infrastructure/database/tenant-scoped.ts; the ambient scope is an
--   argument.
-- - Accounting.FiscalYear, FiscalPeriod and Account: modules/accounting/domain; one function per method, and in
--   Stored the snapshots and `rehydrate`. Accounting.Store: infrastructure/persistence over the tables as lists
--   of rows. Accounting.Periods: the use cases close, reopen and select, and the posting guard; Command serves
--   requests of many companies one after the other. Accounting.Generation: the policy of fiscal-period-generation
--   and `FiscalPeriod.create` on its entries. Accounting.Years: the use cases that generate the periods of a year and
--   create a year, with the repository methods that only they call.
-- - Identity: modules/identity. PermissionKey, Role, Membership, User and Session: its domain; Policy: domain/authorization;
--   Permissions: application/services/effective-permissions.ts; Evidence and Authorize:
--   application/use-cases/authorize-action.use-case.ts; Input, SignIn and Authenticate: signing in, checking a token
--   and signing out. Store: infrastructure/persistence as lists of rows. The hasher, the token service and the
--   requests that commit while one runs are arguments.
-- - Retry: infrastructure/jobs/retry.policy.ts, with the random number as an argument.
-- - Outbox: infrastructure/outbox, the statements of the Drizzle store (Store) and `publishBatch` (Publisher). The
--   transport, the redaction and the jitter are arguments.
-- - Jobs: infrastructure/jobs, the Redis queue and idempotency guard (Queue) and `dispatch` (Dispatcher). What a
--   job's definition does is an argument; the store keeps in which scope each job was run.
-- - RateLimit: infrastructure/api/rate-limit/redis-rate-limiter.ts over its buckets.
-- The Tests modules run the code on concrete values and apply the theorems to them.
--
-- All functions are total by recursion on their data; no fuel is used, and the three attempts of a write that lost
-- a race are counted down as in the source. A random number is given as its
-- number of steps of 2^-53.
--
-- Not modelled: messages and details of errors, logging, generated identities (they are arguments), failures of
-- the database or of Redis themselves, the expiry of the keys of jobs, and requests that interleave inside one
-- another. The management use cases of identity, the modules audit and tenant, HTTP, configuration and the user interfaces are left out.
pub mod Prelude
pub mod Transaction
pub mod Primitives
pub mod Decimal
pub mod Money
pub mod Retry
pub mod Outbox
pub mod Identity
pub mod Jobs
pub mod RateLimit
pub mod Time
pub mod Tenancy
pub mod Accounting
