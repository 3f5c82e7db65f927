-- ===== src/Gremlin.antt =====
-- The typed Gremlin client of packages/extended-opentelemetry-semconv: which traversals it sends to the
-- server, and how it turns the server's answers into semantic elements.
pub mod Steps
pub mod Traversal
pub mod Values
pub mod Models
pub mod Generated
pub mod Client
mod Tests
