-- ===== src/Spool.antt =====
-- The disk spool: client/sentinel-core/src/spool.rs, with `SpoolLimits` of
-- client/sentinel-core/src/config.rs.
-- The three SQL tables are lists of rows and each SQL statement is the list operation that it
-- states. A table has no order of its own: the rows of `segments` are kept in the order
-- (created_ms, call_id, channel, seq) in which the eviction query reads them, so that its
-- `ORDER BY ... LIMIT n` takes the first n. A row holds the Rust values; the columns hold
-- `as_u8`, `to_bits` and the casts to i64, which `map_row` undoes. A u64 time is compared in SQL
-- as the i64 that it is cast to. Failures of the database itself are not modelled.
pub mod Schema
pub mod CallTable
pub mod Segments
pub mod Uploads
pub mod Upkeep
pub mod Order
pub mod Eviction
pub mod AckLaws
pub mod PendingLaws
pub mod CallLaws
pub mod Invariant
