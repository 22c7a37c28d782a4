-- ===== src/Lib.antt =====
-- The core of the hotel's server: reservations of rooms and places, what happens to them until the
-- guest has left and paid, the prices, counts and limits by which rooms are sold, what a search for
-- a stay is answered, the rooms themselves, and who may enter the cabinet.
--
-- The parts, and the files that model them (paths from the repository's root):
--   * Hotel: the rows of one hotel (backend/prisma/schema.prisma), in a record that the services read
--     and write, with the traces that they leave outside the transaction: cache and socket calls, the
--     journal, events for the partner. Hotel/Store has the laws of the reservation table.
--   * Places: backend/src/modules/reservations/room-places.ts (placesOf, allocatePlace, roomFits);
--     Counted and Alloc hold proofs on the places that are taken.
--   * Reservations: backend/src/modules/reservations/reservations.service.ts. Request has the requests
--     (reservations/dto, stay-times.ts), Create `create` with the replay of a partner's request, Update,
--     Placement and Changes `update`, Swap `swap`, Facts `recordFact` (check-in, check-out, no-show),
--     Cancelling `cancel`, Overlap `overlapping`, Desk the day's lists. An operation is a function
--     from the hotel to a refusal or an answer and the hotel after it. The other children hold proofs:
--     Kept, Success and Steps say what a success did, Grows and Since what is left of the table
--     after any further requests, Spans what an edit takes, Exclusive, Valid, Ordinary, Buttons and History
--     carry the invariant; Calendar is the abstract view, who has which night of which room, and
--     Refines, Planned, Requested and Simulation relate the requests to it.
--   * Folio: backend/src/modules/folio/folio.service.ts; a check-out asks it for the debt.
--     Doubles has the JavaScript numbers, Settled what a bill paid line by line is worth.
--   * Housekeeping: backend/src/modules/housekeeping/housekeeping.service.ts; a check-out makes a task.
--   * Pricing: backend/src/modules/pricing (pricing.calculator.ts, pricing.types.ts, rate-resolution.ts,
--     and `quote` of pricing.service.ts, in Pricing/Quote).
--   * Inventory: backend/src/modules/inventory/inventory.service.ts.
--   * Availability: backend/src/modules/inventory/availability.service.ts. Tables has the rows and the
--     answers, Check `check` and `checkAll`, Offers `priceByPlan`; Bookable, Sale, Rows, Cheapest,
--     Departures, Quoted and Partnered hold proofs; Sale joins it to Inventory.
--   * Rooms: backend/src/modules/rooms. Beds is room-beds.ts, Fund the rows and the requests, Service
--     and Bulk rooms.service.ts, one room and many at a time, Types the removal of a category
--     (backend/src/modules/room-types/room-types.service.ts); the others hold proofs: Tidy, Kept and
--     KeptBulk and Orderly the invariant, Archive, Many, Created and TypeBack the rest.
--   * Auth: backend/src/modules/auth and backend/src/common/guards/permissions.guard.ts. Throttle is
--     login-throttle.ts over the counters of the interface in Counters, Accounts the rows, Sessions
--     issueTokens, refresh, logout and the administrator's visits, Sso the single sign-on and the
--     disabling of a dispatcher, Login `login`, Permissions the guard; Limits, Rotation, Leaving,
--     Closing, Codes and Entry hold proofs, Memory is a store of counters that meets the interface.
--   * Restrictions: `check` of backend/src/modules/restrictions/restrictions.service.ts.
--   * Tariffs: docsOfContract and operatorTariffStatus of
--     backend/src/modules/rate-plans/operator-tariff-status.ts; Tariffs/Match is
--     partner-tariff-match.ts.
--   * Base: shared helpers: tests on numbers, lists, sorting, texts, signed integers, results.
--
-- What stands for what: ids are numbers, since they are only compared; a date is the number of its day
-- and a moment a number of milliseconds, from 1970 on; money in a column is a number of kopecks, and
-- the balance of a bill is in doubles, as the server adds it (Folio/Doubles); a text is a list of code points. A request is one step,
-- and several are taken one after the other. `create` without a key, `update` and `swap` lock no row,
-- and `refresh` reads, revokes and issues outside one transaction, so what happens when two of
-- these overlap is not covered. The cleaning after a check-out, which nobody waits for, is asked for
-- in the step and carried out in another one, or fails. A loop over a list or a number of days is structural recursion, so it ends; the search for a
-- place has as many rounds as the room has places, and the chain of parent plans the five levels of
-- the code; the rounding of a double has 200 rounds, enough for sums below 10 ^ 58 roubles. Where the database's order of rows matters (the restrictions of the day of departure) it
-- is a parameter.
--
-- Parameters stand for code that is not in the repository: the list of days of date-fns, which
-- Availability asks only to hold the days from the first to the last in order; the counters of
-- Redis, whose laws are those of INCR, EXPIRE, TTL and DEL; bcrypt, SHA-256 and the signing of tokens,
-- of which nothing is assumed; the database's order of names.
--
-- Not modelled: the framework's controllers and validation, tenants' isolation (one hotel is
-- modelled), the delivery of events, the expiry of caches, logs, and the components listed in the
-- manifest as such: the partner's own interface, the editing of plans and rates, the forms of room
-- categories, registration of hotels, retention, the frontend.
pub mod Availability
pub mod Auth
pub mod Base
pub mod Hotel
pub mod Folio
pub mod Housekeeping
pub mod Reservations
pub mod Places
pub mod Pricing
pub mod Inventory
pub mod Restrictions
pub mod Rooms
pub mod Tariffs
