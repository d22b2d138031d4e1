-- ===== src/Sql.antt =====
-- Access to the database: src/sql.hpp, src/sql.cpp and src/sql.tpp. ODBC is a parameter: what its
-- functions return and write.
pub mod Rows
pub mod Results
pub mod Fetch
pub mod Json
pub mod Calls
pub mod Params
pub mod Describe
