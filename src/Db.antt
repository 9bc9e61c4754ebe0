-- ===== src/Db.antt =====
-- The tables of internal/db: their rows, and the stores that query them. A table is the list of
-- its rows; a query that the source writes in SQL is a function over the rows.
pub mod Models
pub mod DeviceCodes
pub mod Sessions
pub mod WebSessions
pub mod AdhocPatrols
pub mod SectionSettings
