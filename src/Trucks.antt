-- ===== src/Trucks.antt =====
-- The trucks and their drivers (trucks/).
pub mod Model
pub mod Assignment
pub mod Photos
pub mod Brands
mod Examples
