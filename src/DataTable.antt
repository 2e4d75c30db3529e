-- ===== src/DataTable.antt =====
-- web/src/components/data-table: what the parts of the tables keep and do.
pub mod FacetedFilter
pub mod BulkActions
pub mod Pagination
