-- ===== src/TableUrl.antt =====
-- web/src/hooks/use-table-url-state.ts: useTableUrlState, a table's page, page size, global filter
-- and column filters kept in the query string of the address.
--
-- A search record maps a key to its value; `none` is a key that is missing or undefined, which
-- every reader of the record treats alike. Numbers are whole numbers. The router that calls back
-- with the new search record stands outside: `navigate` hands the function to the record.
pub mod Config
pub mod Pagination
pub mod Range
pub mod Globals
pub mod Columns
pub use Config.*
