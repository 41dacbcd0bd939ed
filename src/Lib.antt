-- ===== src/Lib.antt =====
-- GigDrive: a ride-sharing service for concerts. Drivers publish trips, passengers ask for seats, join
-- the waitlist of a full trip, and the price per person falls as seats are confirmed.
--
-- The model follows the services under backend/src. A call of a service is a function from the tables
-- to a result, or the exception that it throws, and the tables afterwards (Service). The TypeORM
-- repositories, the formatting of dates, the Unicode tables and the Signal REST client are not modelled
-- or not code of the repository: they are the fields of the record Env that the services take. Repository
-- states what TypeORM and PostgreSQL document of them: a query returns the rows that match, in any order, `save` replaces
-- the row with the primary key of its argument, and a generated uuid is new. Repository.Listed is an
-- instance.
--
-- Which file models which part:
--   Entities         common/enums.ts and the entities: one record for a table row
--   StateMachine     trips/trip-state-machine.ts: deriveStatus is derive_status, and so on
--   Pricing          trips/pricing.service.ts; Pricing.Client frontend/src/app/core/utils/pricing.ts
--   Seats            the two counts of confirmed seats, and the SUM of the query in accept
--   Ratings          reviews/driver-rating.ts and the aggregation in reviews/reviews.service.ts
--   Reviewable       reviewableTripIds of reviews/reviews.service.ts
--   Reviews          reviews/reviews.service.ts and reviews/guards/review-eligibility.guard.ts
--   Listing          trips/trip-listing.ts
--   TripViews        trips/dto/trip.dto.ts, trips/dto/list-trips.dto.ts and the sort orders
--   TripQueries      list, listForAdmin, listMine, getDetails, getDetailsMany of trips.service.ts
--   TripChecks       the payloads of trips/dto and the checks of trips.service.ts
--   Trips            create, update, confirm, cancel, recomputeStatus, sweepExpired of trips.service.ts
--   Manifest         trips/passenger-manifest.ts and exportManifest of trips.service.ts
--   SignalGroups     integrations/signal/signal-automation.service.ts
--   Waitlist         waitlist/waitlist.service.ts
--   Bookings         bookings/bookings.service.ts
--   Users            users/users.service.ts and its payloads
--   Auth             auth/auth.service.ts and the two strategies of auth/strategies
--   Admin            admin/: the statistics, AdminGuard, and the routes for accounts and trips
--   Vehicles         vehicles/vehicles.service.ts and its payloads
--   Guards           common/guards/ownership.guard.ts, its four subclasses, and the routes behind them
--   Chat             chat/chat.service.ts and the guard of chat/guards
--   Chat.Gateway     chat/chat.gateway.ts
--   Reminders        notifications/trip-reminder.job.ts
--   Ticketmaster     integrations/ticketmaster/ticketmaster.service.ts
--   Forecast         integrations/open-meteo
--   Concerts         concerts/concerts.service.ts and its payloads
--   Templates        notifications/email-templates.ts
--   Emails           notifications/mailer.service.ts and the three senders of notifications/email-*.ts
--   Frontend.Actions   the actions and the effects of frontend/src/app/features/bookings/store and
--                    trips/store
--   Frontend.Store   the reducers there, and the selectors of features/dashboards/store
--   Frontend.Earnings  frontend/src/app/features/dashboards/earnings.ts
--   Frontend.LocalDatetime  toLocalInput of frontend/src/app/core/utils/local-datetime.ts
--   Frontend.Schedule  frontend/src/app/features/trips/trip-create/trip-schedule.ts
-- all under backend/src where nothing else is said. Capacity and Synced state the two invariants of the
-- tables, History composes the calls of the trip services into histories, History.Progress has the arrows of
-- the lifecycle as a step relation between the rows before and after a call, Vehicles.Histories adds the
-- edits of trips and vehicles, Admin.Accounts and Chat.Rooms have histories of requests and of socket
-- events, and the children of a module hold its theorems. Bookings.accept calls Trips.recompute_status,
-- Bookings.cancel calls it and the waitlist, Trips.confirm calls the Signal hook, the routes of Guards call
-- the services, and Emails delivers the events that the services put into the outbox, as in the source.
--
-- Further code that is not of the repository has a record of its own, with what it documents as laws:
-- Crypto (bcrypt and jsonwebtoken, in Auth), GroupCount (GROUP BY, in Admin), RoomServer (socket.io, in
-- Chat.Gateway), Provider and OpenMeteo (the HTTP requests and JavaScript's dates and numbers), Cache
-- (timestamps and ON CONFLICT of PostgreSQL, in Concerts), RowOrder (the order in which PostgreSQL returns
-- rows that ORDER BY does not tell apart, one for each query of a search, in Concerts), Mailer (nodemailer
-- and Intl, in Emails), EntityAdapter (NgRx, in Frontend.Store) and LocalTime (the getters of Date and its
-- reading of texts, in Frontend.LocalDatetime).
-- Examples and its children have an instance of each.
--
-- Choices of the model. Numbers are natural numbers: columns of 32 bits keep sums and products far below
-- 2 ^ 53, so that a double quotient that is rounded up is the exact one, and JavaScript's numbers do
-- not wrap. Instants are milliseconds, uuids are numbers that are compared only, and texts are lists of
-- UTF-16 code units. An average rating is kept in tenths. A ratio of two counts is compared by
-- multiplying out. Payloads have passed the validation of their decorators. `new Date()` reads the
-- clock of the world, which stands still during a call. Every loop of the source runs over a list. Only
-- decimal_digits, which stands for JavaScript's String(n), has fuel: one more than the number, and no number
-- has more digits (Manifest.Digits).
--
-- Calls run one after the other. Where a call reads a row and writes it back later, the part after the
-- read is a definition of its own (accept_locked, set_paid_on, write_disabled), which takes the copy of the row and may
-- start in any later world. The senders behind the notification ports catch every error, so that a
-- notification is an event that is put into the outbox.
--
-- Not modelled: the routes of the controllers that have no ownership guard, which only pass arguments
-- to the services, and the validation decorators; the URLs of the requests to Ticketmaster and Open-Meteo,
-- the client of signal-cli, the SMTP settings and the log, which have no state of the program; the scheduling
-- of the jobs; the migrations and seeds; the other helpers of local-datetime.ts; the components and HTTP
-- clients of the Angular frontend, and that the effects of its stores ignore a request while one of the same kind is under way. Unique
-- constraints other than the primary key and the column updatedAt are left out: a registration and a
-- concurrent one with the same email would both succeed here, so no theorem speaks of concurrent registrations.

pub mod Shared
pub mod Errors
pub mod Entities
pub mod Repository
pub mod Service
pub mod Listing
pub mod Seats
pub mod Ratings
pub mod TripViews
pub mod TripQueries
pub mod StateMachine
pub mod SignalGroups
pub mod TripChecks
pub mod Capacity
pub mod Trips
pub mod Waitlist
pub mod Reviewable
pub mod Bookings
pub mod Pricing
pub mod Synced
pub mod History
pub mod Examples
pub mod Manifest
pub mod Reviews
pub mod Users
pub mod Auth
pub mod Admin
pub mod Vehicles
pub mod Guards
pub mod Chat
pub mod Reminders
pub mod Ticketmaster
pub mod Forecast
pub mod Concerts
pub mod Templates
pub mod Emails
pub mod Frontend
