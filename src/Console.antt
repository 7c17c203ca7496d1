-- ===== src/Console.antt =====
-- api/app.py: the pure parts of the web console, which compute with nodes, jobs and JSON values. The
-- routes call them with what the database and the forms give.
pub mod Nested
pub mod Redact
pub mod Alignment
pub mod Compare
pub mod Forms
pub mod Summary
pub mod Labels
pub mod Favorites
pub mod Baseline
pub mod Hops
pub mod Visibility
mod Tests
