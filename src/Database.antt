-- ===== src/Database.antt =====
-- The database tables behind TypeORM's `Repository`, which the services call and do not implement:
-- an interface whose laws are what TypeORM and PostgreSQL document of the calls that the services
-- make. `ListTable` has an instance, so the laws can be met.
mod Contents
pub mod Laws
pub mod Saves
pub mod Replacing
pub mod ListTable
pub mod Ordered
pub mod Sorting
pub use Contents.*
