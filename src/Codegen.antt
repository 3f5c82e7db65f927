-- ===== src/Codegen.antt =====
-- The generator of models, dimensions and graph schemas (tools/semconv_codegen).
pub mod Names
pub mod Aliases
pub mod Registry
pub mod Relationships
pub mod Models
pub mod Files
pub mod Tests
