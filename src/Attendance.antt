-- ===== src/Attendance.antt =====
-- The attendance clock (attendance/).
pub mod Record
pub mod Store
pub mod Service
pub mod Review
pub mod History
mod Examples
