-- ===== src/Reservations.antt =====
-- The life of a reservation: backend/src/modules/reservations/reservations.service.ts.
pub mod Request
pub mod Facts
pub mod Cancelling
pub mod Overlap
pub mod Create
pub mod Placement
pub mod Changes
pub mod Update
pub mod Swap
pub mod Exclusive
pub mod Kept
pub mod Success
pub mod Steps
pub mod Valid
pub mod Ordinary
pub mod Buttons
pub mod History
pub mod Revival
pub mod Locking
pub mod Partner
pub mod SwapPlaces
pub mod Grows
pub mod Since
pub mod Spans
pub mod Calendar
pub mod Refines
pub mod Planned
pub mod Requested
pub mod Simulation
pub mod Desk
mod Tests
pub mod FactRules
pub mod Replay
