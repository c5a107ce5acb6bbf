-- ===== src/Store.antt =====
-- The database: the rows of app/*/models.py, one list for each table in order of insertion, and the
-- repositories' reads and inserts. An id (a uuid4 in its fixed-width hexadecimal text) is the number that it writes,
-- so texts compare as the numbers do; a time is a number of microseconds.
pub mod Rows
pub mod Newest
pub mod Order
pub mod Queries
pub mod Results
pub use Rows.*
