-- ===== src/Database.antt =====
-- The database behind the services (prisma/schema.prisma): its enums and rows, the queries of a
-- table, and the calls that read and write it.
pub mod Enums
pub mod Rows
pub mod Tables
pub mod Action
pub mod Queries
pub mod Paging
