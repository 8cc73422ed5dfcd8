-- ===== src/Db.antt =====
-- The databases: the pool of threads of src/odio/db.cpp and include/odio/db.hpp.
pub mod Pool
pub mod Turns
pub mod Notified
pub mod Orderly
pub mod Draining
pub mod Jobs
pub mod Pinned
mod Tests
