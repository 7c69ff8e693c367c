-- ===== src/Database.antt =====
-- The PostgreSQL schema of internal/database/migrations, and the tables as lists of rows.
pub mod Table
pub mod Migrations
pub mod Schema
