-- ===== src/Router.antt =====
-- The route tree of src/router.cpp and include/lohin/router.hpp.
pub mod Pattern
pub mod Tree
pub mod Accepts
pub mod Registered
pub mod Answers
pub mod Leak
pub mod Priority
pub mod Slashes
mod Tests
