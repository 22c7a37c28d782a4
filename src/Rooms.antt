-- ===== src/Rooms.antt =====
-- The rooms of a hotel: backend/src/modules/rooms.
pub mod Beds
pub mod Fund
pub mod Service
pub mod Bulk
pub mod Tidy
pub mod Kept
pub mod KeptBulk
pub mod Archive
pub mod Orderly
pub mod Many
pub mod Created
pub mod Types
pub mod TypeBack
mod Tests
