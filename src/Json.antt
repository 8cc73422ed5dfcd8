-- ===== src/Json.antt =====
-- JSON text of src/odio/value.cpp and src/odio/json_parse.cpp.
pub mod Floats
pub mod Write
pub mod Text
pub mod Number
pub mod Parse
pub mod StringTrip
pub mod NumberTrip
pub mod Fits
pub mod ListTrip
pub mod DictTrip
pub mod RoundTrip
mod Tests
