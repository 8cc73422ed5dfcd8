-- ===== src/Session.antt =====
-- Signed session cookies and JSON web tokens of src/odio/project.cpp.
pub mod Token
pub mod Cookie
pub mod Jwt
pub mod Ascii
pub mod CookieTrip
pub mod Claims
mod Tests
