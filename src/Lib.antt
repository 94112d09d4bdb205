-- ===== src/Lib.antt =====
-- The svforb backend connects businesses that have surplus food with charities and farmers that
-- collect it. This library models the parts that decide who gets which food and when, and who may
-- see and do what: listings (`src/modules/foodlisting`), the claims on them
-- (`src/modules/claims`), their delivery by drivers (`src/modules/drivers`), the recurring
-- connections between a business site and a charity site (`src/modules/connections`), and roles,
-- scopes and pages of the enterprise portal (`src/modules/enterprise`), and what a plan pays for
-- (`src/modules/subscriptions`).
--
-- How the parts interact. A listing has food items; claims take weight from both and cancellations
-- give it back. A driver of the claimant delivers a claim, and the end of the trip collects it. A
-- connection has a weekly schedule; for each date it opens a collection day, which prompts the
-- business. The surplus that the business then adds is a listing reserved for the connection's
-- charity: the claim service asks the connection rules before it accepts a claim, a release opens
-- the listing to the others, and the collection of a claim closes the day. A listing whose time is
-- over expires and its day is missed.
--
-- Prisma and Store: the enums and the tables of `prisma/schema.prisma`, as records of the columns
-- that decisions depend on. The database is the record `Db`.
--
-- Listings: `createListing` and `cancelListing` of
-- `src/modules/foodlisting/services/food.listing.service.ts`, the expiry of
-- `src/modules/foodlisting/workers/listing.worker.ts`, and
-- `src/modules/foodlisting/utils/resolve-caller-site.ts`. A job that the worker queues again for
-- later is one that does nothing. Listings/Requests has the requests and jobs and sequences of
-- them.
--
-- Claims: `src/modules/claims/services/claims.service.ts`. Claims has `claimListing`,
-- Claims/Lifecycle `confirmClaim`, `cancelClaim` and `markCollected`, Claims/Feedback the ratings,
-- Claims/Repair the repair of claims by `getMyClaims`. Each operation goes from a database to a
-- `Result`: the exception, or the database after it. Its guards stand in the order of the code.
-- Claims/Service has the requests and sequences of them.
--
-- Drivers: `src/modules/drivers/service/driver.location.service.ts`, the operations on pickups.
-- What Redis holds of a live driver is a parameter. Drivers/Effect has what each of them changes,
-- Drivers/Service the sequences of requests to this and the claim service.
--
-- Connection/Rules: `src/modules/connections/connection.rules.ts`.
--
-- Connection/Schedule: `src/modules/connections/connection.schedule.ts`. Clock has what needs no
-- time zone, Calendar the instants. `Intl.DateTimeFormat` is the parameter `Intl`, an arbitrary
-- function from a zone and an instant to a wall clock. What needs a zone with one offset says so
-- by `KeepsOffset`, which Connection/Schedule/Tests shows of a zone ten hours ahead of UTC.
--
-- Connection/Daily: `src/modules/connections/connection.daily.service.ts`, and `dailyPromptOnce`
-- of `src/modules/connections/connection.notifier.ts`. Whether a push could be queued is a
-- parameter. Sweeps has the sweeps of the workers, Reassign the move to another connection.
--
-- Connection/Service: the life of a connection, from its invitation to its end, in
-- `src/modules/connections/connection.service.ts`, and the expiry of invitations by
-- `src/modules/connections/workers/connection.worker.ts`. Requests has sequences of them.
--
-- Enterprise/Permissions: the table of roles of
-- `src/modules/enterprise/enterprise.permissions.ts`. Enterprise/Scope:
-- `src/modules/enterprise/services/enterprise-scope.service.ts` and
-- `src/modules/enterprise/enterprise-reach.ts`, over the rows of Enterprise/Directory.
-- Enterprise/Pagination: `src/modules/enterprise/enterprise.pagination.ts`.
--
-- Subscriptions: `src/modules/subscriptions`, what the plan of an organisation allows, and the gate
-- before every write. What the interceptor reads of a request is the record `RequestContext`.
--
-- Common: exceptions as values, integers over the native numbers, tables with autoincremented
-- ids, tests, and lemmas on them. The rule set `int_laws` is for equations between integers.
--
-- Choices. Weights are integers in a fixed unit where the program has floats, so that sums are
-- exact; a rating average is kept as the sum and the count of ratings. Instants are milliseconds
-- since the earliest date that a JavaScript `Date` holds. A transaction is one step, and a
-- transaction on rows that were read before it takes these rows as arguments. A condition on an
-- undefined value is no condition, as in the database client, and a missing time comes first in
-- descending order. Rows of a table stand in the order of their creation. `decimal` has the fuel n + 1, which
-- is more than the digits of n; the search for the next collection has the eight rounds of the
-- code's loop.
--
-- Not modelled: HTTP, authentication, caches, sockets, pushes and notifications (their failures
-- are only logged), display texts, floating-point reports, searches and pages of listings, the
-- positions of drivers, and the other modules of the backend.
pub mod Common
pub mod Prisma
pub mod Store
pub mod Connection
pub mod Claims
pub mod Drivers
pub mod Listings
pub mod Enterprise
pub mod Subscriptions
