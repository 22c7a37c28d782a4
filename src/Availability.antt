-- ===== src/Availability.antt =====
-- What can be sold and for how much: backend/src/modules/inventory/availability.service.ts.
pub mod Tables
pub mod Check
pub mod Bookable
pub mod Sale
pub mod Rows
pub mod Cheapest
pub mod Departures
pub mod Offers
pub mod Quoted
pub mod Partnered
mod Tests
