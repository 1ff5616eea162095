-- ===== src/LfsPartRpc.antt =====
-- Lfs_Part/src/Lfs_PartRpc.c: the calls of the file system over RPC. What is open stands in a cache, a
-- list of items that lie at the addresses that malloc() gave. The messages of the callset are the
-- fields of one record, of which the tag says which count; the union that they share is not modelled.
-- Loops over the cache and over a directory have fuel.
pub mod Cache
pub mod Access
pub mod Steps
pub mod Handlers
pub mod Table
pub mod Requests
pub mod Vacancy
pub mod Keys
pub mod Mirror
pub mod Alloc
pub mod Refine
pub mod Answers
pub mod Opening
pub mod Session
pub mod Simulate
pub mod Listing
pub mod Paging
pub mod Total
pub mod Ends
mod Tests
