-- ===== src/Detectors/Sql.antt =====
-- The detectors of SQL that is put together at run time.
pub mod Python
pub mod Go
pub mod Built
pub mod Laws
