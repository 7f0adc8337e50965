-- ===== src/Machista.antt =====
-- The parser of Mach-O files: base/src/machista1.0/libmachista.c.
pub mod Types
pub mod Reading
pub mod Commands
pub mod Parse
pub mod Encode
pub mod Fields
pub mod CommandsRead
pub mod RoundTrip
pub mod Universal
pub mod Recursion
pub mod Parts
pub mod Inside
pub mod CommandsInside
pub mod Safety
pub mod Handle
pub mod Caching
mod Tests
