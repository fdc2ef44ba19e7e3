-- ===== src/Employees.antt =====
-- The employees (employees/).
pub mod Model
pub mod Manage
